-- ===== src/Buffer/Examples.antt =====
-- Concrete runs of the buffers of include/servercore/buffer.
use libiouring_server.Common.{◌+◌, ◌⊎◌, length, ◌≡◌, refl, List, [], ◌∷◌, some, arith}
use libiouring_server.Buffer.Recv.{RecvBuffer, init}
use libiouring_server.Buffer.Recv.Laws.{IsValid}
use libiouring_server.Buffer.Recv.Refine.{
  Call as RecvCall, appends, reads, run as run_recv, queue_run, queue_step, run-init,
}
use libiouring_server.Buffer.Send.Runs.{Call, pushes, drains, marks_sent, run, new, run-one_send}
use libiouring_server.Common.{true}
use libiouring_server.Buffer.Chunk
use libiouring_server.Buffer.Chunk.{SendBuffer, SendBufferChunk, open_buffer, full, collect}
use libiouring_server.Buffer.Chunk.Alive
use libiouring_server.Buffer.Chunk.Alive.{opens, releases, AllApart, Inside, opened, run-AllApart}
use libiouring_server.Buffer.Chunk.Race.{interrupted, collect-overlap}

abbrev traffic : List RecvCall
traffic = appends (1 ∷ 2 ∷ 3 ∷ []) ∷ reads 2 ∷ appends (4 ∷ 5 ∷ []) ∷ appends (6 ∷ 7 ∷ []) ∷ []

-- The second block is stored after a compaction, the third is refused.
run-init_example : run_recv (init 4) traffic ≡ some (queue_run 4 [] traffic)
unfolding queue_step
run-init_example = run-init 4 traffic (omega arith) (omega arith)

abbrev half : RecvBuffer
half = record { buffer = 1 ∷ 2 ∷ 3 ∷ 0 ∷ []; capacity = 4; read_pos = 2; write_pos = 3 }

half-IsValid : IsValid half
half-IsValid = record {
  ordered = omega arith;
  inside = omega arith;
  allocated = refl;
  small = omega arith;
}

-- The third push is refused, the fourth joins the cycle that is not yet marked.
abbrev cycle : List Call
cycle = pushes 1 ∷ pushes 2 ∷ pushes 3 ∷ drains ∷ pushes 4 ∷ marks_sent ∷ []

run-one_send_example :
    ((run (new 2) cycle).asked ≡ (run (new 2) cycle).ended + 1)
    ⊎ (((run (new 2) cycle).asked ≡ (run (new 2) cycle).ended)
        × ((run (new 2) cycle).queue.pending ≡ []))
run-one_send_example = run-one_send 2 cycle

abbrev chunk_calls : List Alive.Call
chunk_calls = opens 3 ∷ opens 5 ∷ releases 1 ∷ opens 4 ∷ []

abbrev chunk : SendBufferChunk
chunk = Alive.run chunk_calls (Chunk.init 16)

run-AllApart_example :
    AllApart chunk.alive × Inside 16 chunk.alive × (chunk.ref_count ≡ length chunk.alive)
run-AllApart_example =
    run-AllApart chunk_calls 16 (omega arith, (omega arith, (tt, (omega arith, tt)))) (omega arith)
      (omega arith)

collect-overlap_example :
    (full (interrupted 3 5) ≡ true)
    × ((opened (collect (interrupted 3 5)) (open_buffer (3 + 5) (collect (interrupted 3 5)))).alive
        ≡ record { place = 0; alloc_size = 3 + 5; write_size = 0 }
          ∷ record { place = 3; alloc_size = 5; write_size = 0 }
          ∷ [])
collect-overlap_example = collect-overlap 3 5 (omega arith) (omega arith) (omega arith)
