-- ===== src/Socket/Tests.antt =====
-- The theorem on `redhttp_request_read_line` of src/redhttp/request.c for a concrete connection.
use redstore.Base.{◌≡◌, refl, true, false, some, [], ◌∷◌, ◌++◌, ok, codes}
use redstore.Socket.{Socket, grown, read_line}

abbrev two_lines : Socket
two_lines = record { input = codes "GET /\r\n\r\n"; eof = false; output = [] }

read_line_test :
    read_line (λ n. true) two_lines
    ≡ ok (
      some (record { bytes = codes "GET /" ++ 0 ∷ []; size = 8192 }),
      record { input = codes "\r\n"; eof = false; output = [] },
    )
unfolding read_line grown
read_line_test = refl
