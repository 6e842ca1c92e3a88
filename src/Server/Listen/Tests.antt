-- ===== src/Server/Listen/Tests.antt =====
-- The theorems on the sockets of src/redhttp/server.c for concrete servers.
use redstore.Base.{◌≡◌, refl, ◌↔◌, true, false, some, List, [], ◌∷◌, take}
use redstore.Server.{Server, server_new}
use redstore.Server.Listen.{Candidate, fd_setsize, server_listen}
use redstore.Server.Listen.Sockets.{usable, HasHighest, server_listen_lem}

-- Three results: one cannot be bound, and two can be used.
abbrev found : List Candidate
found =
    record { socket = some 3; binds = true; listens = true }
    ∷ record { socket = some 4; binds = false; listens = true }
    ∷ record { socket = some 5; binds = true; listens = true }
    ∷ []

abbrev fresh : Server Unit
fresh = server_new

server_listen_lem_example :
    ((server_listen fresh (some found)).0.sockets ≡ take fd_setsize (usable found))
    × HasHighest (server_listen fresh (some found)).0
    × ((server_listen fresh (some found)).1 ≡ false ↔ usable found ≡ [])
server_listen_lem_example = server_listen_lem fresh found refl refl
