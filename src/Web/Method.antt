-- ===== src/Web/Method.antt =====
-- include/serverweb/HttpMethod.h: the methods of requests.
use Prim.Native.String.{String}
use libiouring_server.Common.{ℕ, ◌==◌, if◌then◌else◌}

pub data HttpMethod : Type 0 where
  get head post put delete options patch unknown : HttpMethod

-- The place of a method's handler in a node of the tree.
unfoldable pub index : HttpMethod → ℕ
index get = 0
index head = 1
index post = 2
index put = 3
index delete = 4
index options = 5
index patch = 6
index unknown = 7

unfoldable pub from_llhttp : ℕ → HttpMethod
from_llhttp method =
    if method == 0
    then delete
    else if method == 1
    then get
    else if method == 2
    then head
    else if method == 3
    then post
    else if method == 4
    then put
    else if method == 6
    then options
    else if method == 28
    then patch
    else unknown

unfoldable pub to_string : HttpMethod → String
to_string get = "GET"
to_string head = "HEAD"
to_string post = "POST"
to_string put = "PUT"
to_string delete = "DELETE"
to_string options = "OPTIONS"
to_string patch = "PATCH"
to_string unknown = "UNKNOWN"
