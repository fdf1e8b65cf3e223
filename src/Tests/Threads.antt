-- ===== src/Tests/Threads.antt =====
-- Examples for the connection manager.
use cpp_redis.Prelude.{
  ℕ, zero, suc, ◌≤◌, ◌≡◌, refl, inl, inr, Option, none, some, [], ◌∷◌, length, Option-cases,
}
use cpp_redis.Connections.{
  ConnectionManager, new_manager, max_clients, spawned, add_connection, cleanup_finished_threads,
  keep_joinable, joinable, Reach, here, next, added,
}
use cpp_redis.Connections.Capacity.{running_count, connections_bounded, full_forever}

abbrev one_thread : ConnectionManager
one_thread = record { client_threads = spawned ∷ []; active_connections = 0 }

Reach-one_thread : Reach new_manager one_thread
unfolding add_connection cleanup_finished_threads keep_joinable
Reach-one_thread = next here (added refl)

connections_bounded_example :
    (1 ≤ max_clients) × (0 ≡ running_count (spawned ∷ [])) × (0 ≤ max_clients)
connections_bounded_example = connections_bounded {m = one_thread} Reach-one_thread

-- The server after a number of accepted connections.
abbrev after_accept : ConnectionManager → Option ConnectionManager → ConnectionManager
after_accept m none = m
after_accept m (some m') = m'

abbrev fill : ℕ → ConnectionManager
fill zero = new_manager
fill (suc n) = after_accept (fill n) (add_connection (fill n))

Reach-fill : (n : ℕ) → Reach new_manager (fill n)
Reach-fill zero = here
Reach-fill (suc n) = elim (Option-cases (add_connection (fill n))) [
  | inl full ↦ rw full (Reach-fill n)
  | inr (m, room) ↦ rw room (next (Reach-fill n) (added room))
]

length-fill : length (fill 100).client_threads ≡ max_clients
unfolding add_connection cleanup_finished_threads keep_joinable joinable
length-fill = refl

full_forever_example :
    (add_connection (fill 100) ≡ none) × (length (fill 100).client_threads ≡ max_clients)
full_forever_example = full_forever {m = fill 100} {m' = fill 100} (Reach-fill 100) length-fill here
