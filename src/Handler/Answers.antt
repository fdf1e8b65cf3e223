-- ===== src/Handler/Answers.antt =====
-- Runs of requests with one key: the handler replies what the machine of Handler/Abstract.antt does.
use cpp_redis.Prelude.{◌≡◌, refl, sym, ap, ◌∙◌, List, [], ◌∷◌, map, arith, Bytes, All}
use cpp_redis.Prelude.Int.{ℤ, ◌≤ℤ◌}
use cpp_redis.Utils.{to_upper}
use cpp_redis.Database.{Db}
use cpp_redis.Database.Invariant.{IsValid}
use cpp_redis.Database.View.{live, view, live-live, view_later}
use cpp_redis.Handler.{CommandHandler, process_command, process_all}
use cpp_redis.Handler.Keeps.{process_command-IsValid}
use cpp_redis.Handler.Agrees.{Ordered}
use cpp_redis.Handler.Abstract.{Call, command_name, words, sent, Shown, answer, after_call, answers}
use cpp_redis.Handler.Refines.{process_command-Answers}

-- A call whose name is, in capitals, that of its command.
abbrev pub IsNamed : Call → Type 0
IsNamed c = to_upper c.name ≡ command_name c.request

-- The machine shows at a time what the database does.
abbrev Shows : ℤ → Shown → Db → Type 0
Shows now shown db = (j : Bytes) → live now (shown j) ≡ view now db j

Shows-later :
    (now later : ℤ) (shown : Shown) (db : Db)
    → now ≤ℤ later
    → Shows now shown db
    → Shows later shown db
Shows-later now later shown db h s j =
    sym (live-live now later (shown j) h) ∙ ap (live later) (s j) ∙ view_later now later db j h

live-view : (now : ℤ) (db : Db) (j : Bytes) → live now (view now db j) ≡ view now db j
live-view now db j = view_later now now db j (omega arith)

module _ (c : Call) (h : CommandHandler) (shown : Shown) (v : IsValid h.db) where
  answer-Shows :
      IsNamed c
      → Shows c.env.now shown h.db
      → ((process_command c.env (c.name ∷ c.key ∷ words c.request) h).0 ≡ (answer c shown).0)
        × Shows c.env.now
            (after_call c shown)
            (process_command c.env (c.name ∷ c.key ∷ words c.request) h).1.db
  answer-Shows named s =
      let (reply, after) = process_command-Answers c.env c.name c.key h v c.request named in
      (
        rw (s c.key) reply,
        λ j.
            ap (live c.env.now) (rw (s c.key, s j) (sym (after j)))
            ∙ live-view c.env.now (process_command c.env (c.name ∷ c.key ∷ words c.request) h).1.db
                j,
      )

-- From the calls' own time on.
answers-Shows :
    (now : ℤ) (calls : List Call) (h : CommandHandler) (shown : Shown)
    → IsValid h.db
    → Shows now shown h.db
    → Ordered now (map sent calls)
    → All IsNamed calls
    → (process_all (map sent calls) h).0 ≡ answers calls shown
unfolding process_all answers
answers-Shows now [] h shown v s ordered named = refl
answers-Shows now (c ∷ calls) h shown v s ordered named =
    let (reply, after) =
      answer-Shows c h shown v named.0 (Shows-later now c.env.now shown h.db ordered.0 s) in
    rw (
      reply,
      answers-Shows c.env.now calls (process_command c.env (c.name ∷ c.key ∷ words c.request) h).1
          (after_call c shown) (process_command-IsValid c.env _ h v) after ordered.1 named.1,
    )

-- The handler with its table, its list of entries, its lazy expiry and its clean-up implements the
-- machine that only knows what each key shows: from any well-formed database, calls of the 35
-- commands with one key, their names in any case, with whatever words their patterns allow, get from
-- `process_command`, one after another, exactly the replies of the machine that starts with what the
-- database shows, if the clock does not go back. The commands with options, several keys or no key
-- are not among them.
pub process_all-answers :
    (now : ℤ) (calls : List Call) (h : CommandHandler)
    → IsValid h.db
    → Ordered now (map sent calls)
    → All IsNamed calls
    → (process_all (map sent calls) h).0 ≡ answers calls (view now h.db)
process_all-answers now calls h v ordered named =
    answers-Shows now calls h (view now h.db) v (live-view now h.db) ordered named
