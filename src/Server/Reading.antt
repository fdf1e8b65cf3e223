-- ===== src/Server/Reading.antt =====
-- A thread inside `read`, and the other threads of the server beside it.
use mathlib.Core.Path.{subst}
use cpp_redis.Prelude.{
  ℕ, zero, suc, ◌≡◌, refl, sym, ◌∙◌, inl, inr, true, false, some, List, [], ◌∷◌, ◌++◌, arith,
  length, get_elem?, set, leb, ◌==◌, ==_iff, Bool-cases,
}
use cpp_redis.Connections.{Thread, spawned, running, max_clients}
use cpp_redis.Server.{Connection, TcpServer, accept_round, Handles}
use cpp_redis.Server.Invariant.{IsSound, admitted, accept_round_lem}

get_elem?-set_other {ℓ} :
    {A : Type ℓ} (xs : List A) (i j : ℕ) (x : A)
    → (j == i) ≡ false
    → get_elem? (set xs j x) i ≡ get_elem? xs i
get_elem?-set_other [] i j x other = refl
get_elem?-set_other (y ∷ xs) zero zero x other = absurd (ground arith)
get_elem?-set_other (y ∷ xs) (suc i) zero x other = refl
get_elem?-set_other (y ∷ xs) zero (suc j) x other = refl
get_elem?-set_other (y ∷ xs) (suc i) (suc j) x other = get_elem?-set_other xs i j x (ground arith)

get_elem?-append {ℓ} :
    {A : Type ℓ} (xs ys : List A) (i : ℕ) (x : A)
    → get_elem? xs i ≡ some x
    → get_elem? (xs ++ ys) i ≡ some x
get_elem?-append [] ys i x h = cc
get_elem?-append (y ∷ xs) ys zero x h = h
get_elem?-append (y ∷ xs) ys (suc i) x h = get_elem?-append xs ys i x h

-- Thread `i` is inside `read`, with these variables.
pub record Reads (s : TcpServer) (i : ℕ) (c : Connection) : Type 0 where
  pub handles : Handles s i c
  pub inside : c.is_reading ≡ true

-- The manager and the connections decide that alone.
pub Reads-same :
    (s s' : TcpServer) (i : ℕ) (c : Connection)
    → s'.manager ≡ s.manager
    → s'.connections ≡ s.connections
    → Reads s i c
    → Reads s' i c
Reads-same s s' i c m k h = record {
  handles = record {
    thread = rw m h.handles.thread;
    variables = rw k h.handles.variables;
    not_closed = h.handles.not_closed;
  };
  inside = h.inside;
}

-- The variables of one thread change.
abbrev pub changes : TcpServer → ℕ → Connection → TcpServer
changes s j d = record s { connections = set s.connections j d }

pub Reads-changes :
    (s : TcpServer) (i j : ℕ) (c d : Connection)
    → (j == i) ≡ false
    → Reads s i c
    → Reads (changes s j d) i c
Reads-changes s i j c d other h = record {
  handles = record {
    thread = h.handles.thread;
    variables = get_elem?-set_other s.connections i j d other ∙ h.handles.variables;
    not_closed = h.handles.not_closed;
  };
  inside = h.inside;
}

-- The life of another thread goes on.
pub Reads-thread :
    (s : TcpServer) (i j n : ℕ) (c : Connection) (t : Thread)
    → (j == i) ≡ false
    → Reads s i c
    → Reads
        (record s {
          manager = record {
            client_threads = set s.manager.client_threads j t;
            active_connections = n;
          };
        })
        i
        c
Reads-thread s i j n c t other h = record {
  handles = record {
    thread = get_elem?-set_other s.manager.client_threads i j t other ∙ h.handles.thread;
    variables = h.handles.variables;
    not_closed = h.handles.not_closed;
  };
  inside = h.inside;
}

Reads-admitted :
    (socket i : ℕ) (s : TcpServer) (c : Connection) → Reads s i c → Reads (admitted socket s) i c
Reads-admitted socket i s c h = record {
  handles = record {
    thread = get_elem?-append s.manager.client_threads _ i running h.handles.thread;
    variables = get_elem?-append s.connections _ i c h.handles.variables;
    not_closed = h.handles.not_closed;
  };
  inside = h.inside;
}

pub Reads-accepted :
    (socket i : ℕ) (s : TcpServer) (c : Connection)
    → IsSound s
    → Reads s i c
    → Reads (accept_round (some socket) s) i c
Reads-accepted socket i s c v h =
    elim (Bool-cases (leb max_clients (length s.manager.client_threads))) [
      | inl full ↦ subst (λ x. Reads x i c) (sym (accept_round_lem socket s v ∙ rw full)) h
      | inr room ↦
          subst (λ x. Reads x i c) (sym (accept_round_lem socket s v ∙ rw room))
            (Reads-admitted socket i s c h)
    ]

different : (i j : ℕ) → (j ≡ i → ⊥) → (j == i) ≡ false
different i j apart = elim (Bool-cases (j == i)) [
  | inl same ↦ absurd (apart ((==_iff j i).0 same))
  | inr other ↦ other
]

-- A thread that reads is not one with variables of another kind.
pub reading-other :
    (s : TcpServer) (i j : ℕ) (c d : Connection)
    → Reads s i c
    → get_elem? s.connections j ≡ some d
    → d.is_reading ≡ false
    → (j == i) ≡ false
reading-other s i j c d h k out = different i j (λ same.
    let at_i : get_elem? s.connections i ≡ some d =
      subst (λ n. get_elem? s.connections n ≡ some d) same k in
    let one : c ≡ d = ground (arith, h.handles.variables) in absurd (ground (arith, h.inside, one)))

-- Nor one that waits to run, nor one that has closed its socket.
pub began-other :
    (s : TcpServer) (i j : ℕ) (c : Connection)
    → Reads s i c
    → get_elem? s.manager.client_threads j ≡ some spawned
    → (j == i) ≡ false
began-other s i j c h k = different i j (λ same.
    let at_i : get_elem? s.manager.client_threads i ≡ some spawned =
      subst (λ n. get_elem? s.manager.client_threads n ≡ some spawned) same k in
    let thread = h.handles.thread in absurd (ground arith))

pub closed-other :
    (s : TcpServer) (i j : ℕ) (c d : Connection)
    → Reads s i c
    → get_elem? s.connections j ≡ some d
    → d.is_open ≡ false
    → (j == i) ≡ false
closed-other s i j c d h k shut = different i j (λ same.
    let at_i : get_elem? s.connections i ≡ some d =
      subst (λ n. get_elem? s.connections n ≡ some d) same k in
    let one : c ≡ d = ground (arith, h.handles.variables) in
    absurd (ground (arith, h.handles.not_closed, one)))
