-- ===== src/Session/Examples.antt =====
-- A concrete connection of src/io/Session.cpp.
use libiouring_server.Common.{◌+◌, ◌≤◌, ◌<◌, ◌≡◌, refl, ◌⊎◌, true, false, List, [], ◌∷◌}
use libiouring_server.Buffer.Send
use libiouring_server.Buffer.Send.{push, drain, mark_sent, still_registered}
use libiouring_server.Session.{
  Room, Session, disconnect, send, calls_send, start, closed, bytes, on_recv, take_in, on_send,
  on_disconnect, init, register_recv, perform, act, after_push, register_send, send_batch, submit,
  go_on, increment, decrement, after_send, try_release, positive,
}
use libiouring_server.Session.Invariant.{Held, Over}
use libiouring_server.Session.Life.{
  Reach, started, then_step, disconnects, recv_done, pending_io_lem, release_once, buffers_kept,
}
use libiouring_server.Session.Settle.{
  Endings, none_yet, and_between, and_one, send_called, Late, recv_late, send_late, recv_ends,
  send_ends, disconnect_ends, in_flight, settles,
}

abbrev free : Room
free = record { recv = true; send = true; disconnect = true }

abbrev full : Room
full = record { recv = true; send = true; disconnect = false }

abbrev opened : Session
opened = start free [] (init 4)

opened_lem : opened.ring.recvs ≡ 1
unfolding start on_recv init take_in register_recv perform act send after_push push Send.init
    register_send send_batch drain submit go_on increment decrement disconnect on_send after_send
    mark_sent still_registered on_disconnect try_release positive
opened_lem = refl

-- A message arrives, which the application answers; another answer waits while the first is sent.
abbrev echoed : Session
echoed =
    on_recv free true true (bytes (1 ∷ 2 ∷ [])) (calls_send free 7 ∷ calls_send free 8 ∷ []) opened

echoed-Reach : Reach 4 echoed
echoed-Reach = then_step (started free [] refl tt) (
    recv_done free true true (bytes (1 ∷ 2 ∷ [])) (calls_send free 7 ∷ calls_send free 8 ∷ []) refl
      (refl, (refl, tt)) tt opened_lem)

pending_io_lem_example :
    (echoed.pending_io ≡ echoed.ring.recvs + echoed.ring.sends + echoed.ring.disconnects)
    × (echoed.ring.recvs ≤ 1)
    × (echoed.ring.sends ≤ 1)
    × (echoed.ring.disconnects ≤ 1)
pending_io_lem_example = pending_io_lem echoed-Reach

release_once_example :
    ((echoed.disconnecting ≡ false) × (echoed.ring.recvs ≡ 1) × Held echoed)
    ⊎ (((echoed.disconnecting ≡ true)
          × (0 < echoed.ring.recvs + echoed.ring.sends + echoed.ring.disconnects)
          × Held echoed)
        ⊎ ((echoed.ring.recvs + echoed.ring.sends + echoed.ring.disconnects ≡ 0) × Over echoed))
release_once_example = release_once echoed-Reach

buffers_kept_example :
    (echoed.in_flight_bufs ≡ echoed.ring.message)
    × ((echoed.ring.sends ≡ 1) ⊎ (echoed.ring.message ≡ []))
    × ((echoed.disconnecting ≡ true) ⊎ ((echoed.ring.sends ≡ 1) ⊎ (echoed.send_queue.pending ≡ [])))
buffers_kept_example = buffers_kept echoed-Reach

in_flight_bufs_example : echoed.in_flight_bufs ≡ 7 ∷ []
unfolding start on_recv init take_in register_recv perform act send after_push push Send.init
    register_send send_batch drain submit go_on increment
in_flight_bufs_example = refl

abbrev leaving : Session
leaving = disconnect free echoed

leaving-Reach : Reach 4 leaving
leaving-Reach = then_step echoed-Reach (disconnects free refl)

abbrev left : Session
left = on_recv free false false closed [] (on_send free true (on_disconnect leaving))

leaving_lem :
    (leaving.disconnecting ≡ true) × (leaving.ring.disconnects ≡ 1) × (leaving.ring.sends ≡ 1)
unfolding start on_recv init take_in register_recv perform act send after_push push Send.init
    register_send send_batch drain submit go_on increment decrement disconnect on_send after_send
    mark_sent still_registered on_disconnect try_release positive
leaving_lem = (refl, refl, refl)

-- The shutdown completes, then the send, then the receive; Send is called behind that.
abbrev sending : Session
sending = on_disconnect leaving

abbrev receiving : Session
receiving = on_send free true sending

sending_lem : sending.ring.sends ≡ 1
unfolding start on_recv init take_in register_recv perform act send after_push push Send.init
    register_send send_batch drain submit go_on increment decrement disconnect on_send after_send
    mark_sent still_registered on_disconnect try_release positive
sending_lem = refl

receiving_lem : receiving.ring.recvs ≡ 1
unfolding start on_recv init take_in register_recv perform act send after_push push Send.init
    register_send send_batch drain submit go_on increment decrement disconnect on_send after_send
    mark_sent still_registered on_disconnect try_release positive
receiving_lem = refl

left-Endings : Endings 3 leaving (send free 9 left).1
left-Endings = and_one {s = leaving} (disconnect_ends {s = leaving} leaving_lem.1) (
    and_one (send_ends {s = sending} free true sending_lem) (
      and_one (recv_ends {s = receiving} free false closed [] receiving_lem)
        (and_between {s = left} (send_called {s = left} free 9) none_yet)))

settles_example : (3 ≤ in_flight leaving) × ((3 < in_flight leaving) ⊎ Over (send free 9 left).1)
settles_example = settles leaving-Reach leaving_lem.0 left-Endings

-- The receive that is still in flight gets bytes, then the send completes.
abbrev late : List Late
late = recv_late free true true (bytes (1 ∷ [])) [] ∷ send_late free true ∷ []
