-- ===== src/Commands/Server/Agrees.antt =====
-- PING, ECHO, FLUSHALL and TIME reply alike on databases that show the same.
use cpp_redis.Prelude.{refl, sym, ◌∙◌, [], ◌∷◌}
use cpp_redis.Prelude.Int.{ℤ}
use cpp_redis.Database.{Db, clear_database}
use cpp_redis.Database.View.{view-clear_database}
use cpp_redis.Database.Same.{Same, Agrees}
use cpp_redis.Commands.Server.{cmd_ping, cmd_echo, cmd_flushall, cmd_time}

Same-clear_database : (now : ℤ) (db db' : Db) → Same now (clear_database db) (clear_database db')
Same-clear_database now db db' j =
    view-clear_database now db j ∙ sym (view-clear_database now db' j)

pub cmd_ping-Agrees : (now : ℤ) → Agrees now cmd_ping
unfolding cmd_ping
cmd_ping-Agrees now [] db db' same = (refl, same)
cmd_ping-Agrees now (name ∷ []) db db' same = (refl, same)
cmd_ping-Agrees now (name ∷ key ∷ []) db db' same = (refl, same)
cmd_ping-Agrees now (name ∷ key ∷ x ∷ args) db db' same = (refl, same)

pub cmd_echo-Agrees : (now : ℤ) → Agrees now cmd_echo
unfolding cmd_echo
cmd_echo-Agrees now [] db db' same = (refl, same)
cmd_echo-Agrees now (name ∷ []) db db' same = (refl, same)
cmd_echo-Agrees now (name ∷ key ∷ []) db db' same = (refl, same)
cmd_echo-Agrees now (name ∷ key ∷ x ∷ args) db db' same = (refl, same)

pub cmd_flushall-Agrees : (now : ℤ) → Agrees now cmd_flushall
unfolding cmd_flushall
cmd_flushall-Agrees now [] db db' same = (refl, Same-clear_database now db db')
cmd_flushall-Agrees now (name ∷ []) db db' same = (refl, Same-clear_database now db db')
cmd_flushall-Agrees now (name ∷ key ∷ []) db db' same = (refl, Same-clear_database now db db')
cmd_flushall-Agrees now (name ∷ key ∷ x ∷ args) db db' same = (refl, same)

pub cmd_time-Agrees : (now : ℤ) → Agrees now (cmd_time now)
unfolding cmd_time
cmd_time-Agrees now [] db db' same = (refl, same)
cmd_time-Agrees now (name ∷ []) db db' same = (refl, same)
cmd_time-Agrees now (name ∷ key ∷ args) db db' same = (refl, same)
