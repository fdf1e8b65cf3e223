-- ===== src/Client/Chunks.antt =====
-- How the bytes of a connection are cut into reads makes no difference.
use mathlib.Core.Path.{subst}
use cpp_redis.Prelude.{
  ℕ, zero, suc, ◌<◌, ◌≤◌, ◌≡◌, sym, ap, ◌∙◌, inl, inr, List, [], ◌∷◌, ◌++◌, append_assoc,
  append-nil, Bytes, arith, length, length-append, length-drop, drop-append_le, Option-cases,
}
use cpp_redis.Resp.Parser.{parse}
use cpp_redis.Resp.Parser.Consumed.{parse_consumed, parse-append}
use cpp_redis.Handler.{Env}
use cpp_redis.Client.{Client, Drained, waiting, serve, drain, receive, receive_all}
use cpp_redis.Client.Progress.{parse_readable, receive_waits, drain_incomplete, drain_complete}

-- Bytes that arrive at the end of the buffer.
abbrev arrive : Bytes → Client → Client
arrive t c = record c { buffer = c.buffer ++ t }

module _ (envs : ℕ → Env) where
  serve_smaller :
      (args : List Bytes) (n : ℕ) (c : Client)
      → 0 < n
      → n ≤ length c.buffer
      → length (serve envs args n c).buffer < length c.buffer
  unfolding serve
  serve_smaller args n c h k = omega (arith, length-drop {0} n c.buffer)

  serve-arrive :
      (args : List Bytes) (n : ℕ) (c : Client) (t : Bytes)
      → n ≤ length c.buffer
      → serve envs args n (arrive t c) ≡ arrive t (serve envs args n c)
  unfolding serve
  serve-arrive args n c t h = rw (drop-append_le n c.buffer t h)

  -- More rounds than bytes are as good as any other such number.
  drain_rounds :
      (f g : ℕ) (c : Client)
      → length c.buffer < f
      → length c.buffer < g
      → drain envs f c ≡ drain envs g c
  drain_rounds zero g c h k = absurd (omega arith)
  drain_rounds (suc f) zero c h k = absurd (omega arith)
  drain_rounds (suc f) (suc g) c h k = elim (Option-cases (parse c.buffer)) [
    | inl incomplete ↦
        drain_incomplete envs f c incomplete ∙ sym (drain_incomplete envs g c incomplete)
    | inr ((value, consumed), complete) ↦
        let (args, read) = parse_readable c.buffer value consumed complete in
        let (taken, fits, _) = parse_consumed c.buffer value consumed complete in
        let smaller = serve_smaller args consumed c taken fits in
        drain_complete envs f c value consumed args complete read
        ∙ drain_rounds f g (serve envs args consumed c) (omega arith) (omega arith)
        ∙ sym (drain_complete envs g c value consumed args complete read)
  ]

  waiting-injective : (c c' : Client) → waiting c ≡ waiting c' → c ≡ c'
  waiting-injective c c' e = cc

  -- What arrives before the loop has worked off the buffer might as well arrive behind.
  drain-arrive :
      (rounds m : ℕ) (c c' : Client) (t : Bytes)
      → length c.buffer < rounds
      → length (c.buffer ++ t) < m
      → drain envs rounds c ≡ waiting c'
      → drain envs m (arrive t c) ≡ receive envs t c'
  drain-arrive zero m c c' t h k e = absurd (omega arith)
  drain-arrive (suc rounds) zero c c' t h k e = absurd (omega arith)
  drain-arrive (suc rounds) (suc m) c c' t h k e = elim (Option-cases (parse c.buffer)) [
    | inl incomplete ↦
        let same : c ≡ c' =
          waiting-injective c c' (sym (drain_incomplete envs rounds c incomplete) ∙ e) in
        subst (λ d. drain envs (suc m) (arrive t c) ≡ receive envs t d) same
          (unfold receive in
            drain_rounds (suc m) (suc (length (c.buffer ++ t))) (arrive t c) k (omega arith))
    | inr ((value, consumed), complete) ↦
        let (args, read) = parse_readable c.buffer value consumed complete in
        let (taken, fits, _) = parse_consumed c.buffer value consumed complete in
        let next = serve envs args consumed c in
        let smaller = serve_smaller args consumed c taken fits in
        let shorter : length (next.buffer ++ t) < m =
          omega (arith, length-append {0} c.buffer t, length-append {0} next.buffer t) in
        drain_complete envs m (arrive t c) value consumed args
          (parse-append c.buffer t value consumed complete) read
        ∙ ap (drain envs m) (serve-arrive args consumed c t fits)
        ∙ drain-arrive rounds m next c' t (omega arith) shorter
            (sym (drain_complete envs rounds c value consumed args complete read) ∙ e)
  ]

  -- Two reads are worked off as one read of the bytes of both.
  receive-append :
      (s t : Bytes) (c c' : Client)
      → receive envs s c ≡ waiting c'
      → receive envs (s ++ t) c ≡ receive envs t c'
  unfolding receive
  receive-append s t c c' e =
      subst (λ b. drained b ≡ receive envs t c') (append_assoc c.buffer s t)
        (drain-arrive (suc (length (c.buffer ++ s))) (suc (length ((c.buffer ++ s) ++ t)))
          (arrive s c) c' t (omega arith) (omega arith) (unfold receive in e))
    where
      drained : Bytes → Drained
      drained b = drain envs (suc (length b)) (record c { buffer = b })

-- The bytes of all chunks.
abbrev pub joined : List Bytes → Bytes
joined [] = []
joined (chunk ∷ chunks) = chunk ++ joined chunks

pub receive_all_step :
    (envs : ℕ → Env) (chunk : Bytes) (chunks : List Bytes) (c c' : Client)
    → receive envs chunk c ≡ waiting c'
    → receive_all envs (chunk ∷ chunks) c ≡ receive_all envs chunks c'
unfolding receive_all
receive_all_step envs chunk chunks c c' h = ground arith

-- Whatever the chunks in which the bytes of a connection are read, the replies that are sent, the
-- handler's state and the bytes left in the buffer are those of one read of all the bytes.
pub receive_all-joined :
    (envs : ℕ → Env) (chunk : Bytes) (chunks : List Bytes) (c : Client)
    → receive_all envs (chunk ∷ chunks) c ≡ receive envs (joined (chunk ∷ chunks)) c
unfolding receive_all
receive_all-joined envs chunk [] c =
    let (c', done, _) = receive_waits envs chunk c in
    receive_all_step envs chunk [] c c' done
    ∙ sym done
    ∙ ap (λ b. receive envs b c) (sym (append-nil chunk))
receive_all-joined envs chunk (next ∷ chunks) c =
    let (c', done, _) = receive_waits envs chunk c in
    receive_all_step envs chunk (next ∷ chunks) c c' done
    ∙ receive_all-joined envs next chunks c'
    ∙ sym (receive-append envs chunk (joined (next ∷ chunks)) c c' done)
