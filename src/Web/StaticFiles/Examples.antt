-- ===== src/Web/StaticFiles/Examples.antt =====
-- A directory that holds one file of two bytes.
use libiouring_server.Common.{ℕ, true, false, List, [], ◌∷◌, ◌++◌, some}
use libiouring_server.Common.Maps.{text_eq}
use libiouring_server.Web.Context.{RequestContext}
use libiouring_server.Web.Method.{get}
use libiouring_server.Web.Request.{new_request}
use libiouring_server.Web.Response.{Surroundings, new_response}
use libiouring_server.Web.StaticFiles.{Files, StaticFiles, process}
use libiouring_server.Web.StaticFiles.Inside.{Answer, process-Answer}

-- /w
abbrev root : List ℕ
root = 47 ∷ 119 ∷ []

abbrev files : Files
files = record {
  canonical = λ path. some path;
  join = λ path name. path ++ 47 ∷ name;
  is_directory = λ path. false;
  is_regular_file = λ path. true;
  size_and_mtime = λ path. some (2, 7);
  read = λ path. some (104 ∷ 105 ∷ []);
  extension = λ path. [];
  time_text = λ time. [];
}

abbrev www : StaticFiles
www = record {
  opts = record {
    prefix = 47 ∷ [];
    enable_etag = true;
    enable_last_modified = true;
    max_age = 3600;
    index_files = [];
    max_file_size = 50;
  };
  resolved_root = root;
}

-- GET /a
abbrev asking : RequestContext
asking = record {
  request = record new_request { method = get; path = 47 ∷ 97 ∷ [] };
  response = new_response true;
  handed_over = [];
  thrown = false;
}

abbrev here : Surroundings
here = record { date = []; room = λ n. true }

process-Answer_example :
    Answer here files www (λ c. c) asking (process here files www (λ c. c) asking)
process-Answer_example = process-Answer here files www (λ c. c) asking
