-- ===== src/Server/Listen/Sockets.antt =====
-- Which sockets src/redhttp/server.c listens on, and when it can wait for them.
use redstore.Base.{
  ℕ, zero, suc, ◌-◌, ◌≤◌, ◌<◌, ◌≡◌, refl, sym, ap, ◌∙◌, ◌↔◌, inl, inr, Bool, true, false, ◌&&◌, not,
  Option, none, some, List, [], ◌∷◌, ◌++◌, append_assoc, append-nil, arith, ltb, ◌==◌,
  if◌then◌else◌, ltb→lt, Bool-cases, Option-cases, length, take, length-append, All, All-append,
  bad_write, fault, Str, ℤ, pos, negsuc,
}
use mathlib.Core.List.{Memᴰ}
use redstore.Server.{Server}
use redstore.Server.Listen.{
  Candidate, Selected, fd_setsize, max_with, add_socket, try_candidate, listen_loop, server_listen,
  set_all, server_run,
}
use redstore.Server.Handle.{Connection}

-- The sockets that could be made, bound and listened on.
abbrev pub usable_one : Option ℕ → Bool → List ℕ
usable_one none fits = []
usable_one (some sock) fits = if fits then sock ∷ [] else []

abbrev pub usable : List Candidate → List ℕ
usable [] = []
usable (c ∷ next) = usable_one c.socket (c.binds && c.listens) ++ usable next

-- A number is the highest of the sockets, or -1 if there is none.
abbrev pub IsHighest : ℤ → List ℕ → Type 0
IsHighest (negsuc k) socks = (k ≡ 0) × (socks ≡ [])
IsHighest (pos m) socks = Memᴰ m socks × All (λ n. n ≤ m) socks

-- The maximum that is kept for select is the highest of the sockets.
abbrev pub HasHighest : {W : Type 0} → Server W → Type 0
HasHighest server = IsHighest server.socket_max server.sockets

Mem-snoc : (n : ℕ) (socks : List ℕ) → Memᴰ n (socks ++ n ∷ [])
Mem-snoc n [] = Memᴰ.head refl
Mem-snoc n (x ∷ socks) = Memᴰ.tail (Mem-snoc n socks)

Mem-left : (n : ℕ) (socks more : List ℕ) → Memᴰ n socks → Memᴰ n (socks ++ more)
Mem-left n [] more h = elim h [ ]
Mem-left n (x ∷ socks) more h = elim h [
  | Memᴰ.head e ↦ Memᴰ.head e
  | Memᴰ.tail later ↦ Memᴰ.tail (Mem-left n socks more later)
]

All-weaker : (m n : ℕ) (socks : List ℕ) → m ≤ n → All (λ k. k ≤ m) socks → All (λ k. k ≤ n) socks
All-weaker m n [] h k = tt
All-weaker m n (x ∷ socks) h (one, rest) = (omega arith, All-weaker m n socks h rest)

-- Another socket makes the maximum of both the highest.
max_with-IsHighest :
    (m : ℤ) (sock : ℕ) (socks : List ℕ)
    → IsHighest m socks
    → IsHighest (max_with m sock) (socks ++ sock ∷ [])
max_with-IsHighest (negsuc k) sock [] (_, none_yet) = (Memᴰ.head refl, (omega arith, tt))
max_with-IsHighest (negsuc k) sock (x ∷ socks) (_, none_yet) = absurd (cc none_yet)
max_with-IsHighest (pos m) sock socks (here, highest) = elim (Bool-cases (ltb m sock)) [
  | inl more ↦ rw more (
    Mem-snoc sock socks,
    All-append (λ n. n ≤ sock) socks (sock ∷ [])
        (All-weaker m sock socks (omega (arith, ltb→lt m sock more)) highest) (omega arith, tt),
  )
  | inr less ↦ rw less (
    Mem-left m socks (sock ∷ []) here,
    All-append (λ n. n ≤ m) socks (sock ∷ []) highest (ground arith, tt),
  )
]

add_socket-HasHighest :
    {W : Type 0} (server : Server W) (sock : ℕ)
    → HasHighest server
    → HasHighest (add_socket server sock)
add_socket-HasHighest server sock h = max_with-IsHighest server.socket_max sock server.sockets h

-- What one candidate adds.
try_candidate_lem :
    {W : Type 0} (server : Server W) (c : Candidate)
    → HasHighest server
    → ((try_candidate server c).sockets
        ≡ server.sockets ++ usable_one c.socket (c.binds && c.listens))
      × HasHighest (try_candidate server c)
unfolding try_candidate
try_candidate_lem server c h = elim (Option-cases c.socket) [
  | inl no_socket ↦ rw no_socket (sym (append-nil server.sockets), h)
  | inr (sock, e) ↦ elim (Bool-cases (c.binds && c.listens)) [
    | inl good ↦ rw e (rw good (refl, add_socket-HasHighest server sock h))
    | inr bad ↦ rw e (rw bad (sym (append-nil server.sockets), h))
  ]
]

-- Room for the sockets of one candidate, if there is room for one socket.
take-one :
    (old : List ℕ) (socket : Option ℕ) (fits : Bool) (more : List ℕ)
    → length old < fd_setsize
    → (old ++ usable_one socket fits)
        ++ take (fd_setsize - length (old ++ usable_one socket fits)) more
      ≡ old ++ take (fd_setsize - length old) (usable_one socket fits ++ more)
take-one old none fits more h = ap (λ o. o ++ take (fd_setsize - length o) more) (append-nil old)
take-one old (some sock) false more h =
    ap (λ o. o ++ take (fd_setsize - length o) more) (append-nil old)
take-one old (some sock) true more h =
    append_assoc old (sock ∷ []) (take (fd_setsize - length (old ++ sock ∷ [])) more)
    ∙ ap (λ t. old ++ t)
        (sym (
          take-cons (fd_setsize - length old) (fd_setsize - length (old ++ sock ∷ [])) sock more
            (omega (arith, length-append old (sock ∷ [])))))
  where
    take-cons : (n m : ℕ) (x : ℕ) (xs : List ℕ) → n ≡ suc m → take n (x ∷ xs) ≡ x ∷ take m xs
    take-cons n m x xs e = rw e refl

-- The sockets of the results of getaddrinfo, in order, as long as there is room for them in the set,
-- which holds 1024: those that can be made, bound and listened on. The maximum is the highest.
listen_loop_lem :
    {W : Type 0} (server : Server W) (found : List Candidate)
    → HasHighest server
    → ((listen_loop server found).sockets
        ≡ server.sockets ++ take (fd_setsize - length server.sockets) (usable found))
      × HasHighest (listen_loop server found)
unfolding listen_loop
listen_loop_lem server [] h = (ends (fd_setsize - length server.sockets), h)
  where
    ends : (n : ℕ) → server.sockets ≡ server.sockets ++ take n []
    ends zero = sym (append-nil server.sockets)
    ends (suc n) = sym (append-nil server.sockets)
listen_loop_lem server (c ∷ next) h = elim (Bool-cases (ltb (length server.sockets) fd_setsize)) [
  | inl room ↦
      let (sockets, bounded) = try_candidate_lem server c h in
      let (rest, kept) = listen_loop_lem (try_candidate server c) next bounded in
      rw room (
        rest
            ∙ (ap (λ o. o ++ take (fd_setsize - length o) (usable next)) sockets
                ∙ take-one server.sockets c.socket (c.binds && c.listens) (usable next)
                    (ltb→lt (length server.sockets) fd_setsize room)),
        kept,
      )
  | inr full ↦
      let none_left : fd_setsize - length server.sockets ≡ 0 = ground arith in
      rw full (rw none_left (sym (append-nil server.sockets)), h)
]

none_usable :
    (n : ℕ) (socks : List ℕ) → (not (length (take (suc n) socks) == 0) ≡ false) ↔ (socks ≡ [])
none_usable n [] = (λ e. refl, λ e. refl)
none_usable n (sock ∷ next) = (λ e. absurd (ground arith), λ e. cc e)

-- A server that has no sockets, and -1 for their highest number, listens on the first 1024 of those that can be used; it succeeds exactly
-- if there is one, and the number that is kept for select is the highest of them, or -1 if there is
-- none, as it was.
pub server_listen_lem :
    {W : Type 0} (server : Server W) (found : List Candidate)
    → server.sockets ≡ []
    → server.socket_max ≡ negsuc 0
    → ((server_listen server (some found)).0.sockets ≡ take fd_setsize (usable found))
      × HasHighest (server_listen server (some found)).0
      × ((server_listen server (some found)).1 ≡ false ↔ usable found ≡ [])
unfolding server_listen
server_listen_lem server found h fresh =
    let (listed, bounded) = listen_loop_lem server found (rw (h, fresh) (refl, refl)) in
    let sockets = listed ∙ ap (λ o. o ++ take (fd_setsize - length o) (usable found)) h in
    (sockets, bounded, rw sockets (none_usable 1023 (usable found)))

set_all-overflow :
    (sock : ℕ) (socks : List ℕ)
    → Memᴰ sock socks
    → fd_setsize ≤ sock
    → set_all socks ≡ fault bad_write
set_all-overflow sock [] m h = elim m [ ]
set_all-overflow sock (first ∷ next) (Memᴰ.head same) h =
    let large : ltb first fd_setsize ≡ false = ground arith in rw large refl
set_all-overflow sock (first ∷ next) (Memᴰ.tail later) h =
    elim (Bool-cases (ltb first fd_setsize)) [
      | inl small ↦ rw small (set_all-overflow sock next later h)
      | inr large ↦ rw large refl
    ]

-- A socket whose number is 1024 or more is written outside the set that select waits for: only the count
-- of the sockets is kept below that.
server_run-overflow :
    {W : Type 0} (can_allocate : ℕ → Bool) (date : Option Str) (server : Server W)
    (selected : Selected) (accept : ℕ → Option Connection) (world : W) (sock : ℕ)
    → Memᴰ sock server.sockets
    → fd_setsize ≤ sock
    → server_run can_allocate date server selected accept world ≡ fault bad_write
unfolding server_run
server_run-overflow can_allocate date server selected accept world sock m h =
    rw (set_all-overflow sock server.sockets m h) refl
