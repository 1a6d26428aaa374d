-- ===== src/Stream/Lines.antt =====
-- stream.c: the lines that stream_getln() finds.
use csup.Prelude.{
  ℕ, zero, suc, ◌+◌, ◌^◌, ◌<◌, ◌≤◌, ◌≡◌, refl, sym, ◌∙◌, ap, arith, true, Option-cases, inl, inr,
  append-nil, append_assoc, Bytes, [], ◌∷◌, ◌++◌, length, length-append, Option, none, some, take,
  drop, take-append-drop, length-take, take-append_le, take_all,
}
use csup.Prelude.Run.{done}
use csup.Stream.{contents}
use csup.Stream.Filled.{IsRead, IsReady, Received, Fails, stream_fill_lem, failed, ended, more}
use csup.Stream.Memory.{length-read}
use csup.Stream.Reading.{Reader, newline_at, line_loop}

-- A newline is found behind bytes without one.
pub newline_at-append :
    (a b : Bytes) (i : ℕ)
    → newline_at a ≡ none
    → newline_at b ≡ some i
    → newline_at (a ++ b) ≡ some (length a + i)
unfolding newline_at
newline_at-append [] b i h e = rw e (ap some (omega arith))
newline_at-append (c ∷ a) b i h e = ground (arith, newline_at-append a b i)

newline_at-append_none :
    (a b : Bytes) → newline_at a ≡ none → newline_at b ≡ none → newline_at (a ++ b) ≡ none
unfolding newline_at
newline_at-append_none [] b h e = e
newline_at-append_none (c ∷ a) b h e = ground (arith, newline_at-append_none a b)

pub newline_at_lt : (s : Bytes) (i : ℕ) → newline_at s ≡ some i → i < length s
unfolding newline_at
newline_at_lt [] i h = absurd (cc)
newline_at_lt (c ∷ s) zero h = omega arith
newline_at_lt (c ∷ s) (suc i) h = ground (arith, newline_at_lt s i)

-- The newline ends the line.
pub newline_at-take :
    (s : Bytes) (i : ℕ) → newline_at s ≡ some i → newline_at (take (suc i) s) ≡ some i
unfolding newline_at
newline_at-take [] i h = absurd (cc)
newline_at-take (c ∷ s) zero h = ground arith
newline_at-take (c ∷ s) (suc i) h = ground (arith, newline_at-take s i)

module _ (readfn : Bytes → ℕ → Option Bytes) (limit : ℕ) where
  -- What the search for the end of the line comes to: the size of the line.
  pub data Found (r : Reader) (fuel searched : ℕ) : Type 0 where
    lost :
        (new : Bytes) (r' : Reader)
        → line_loop readfn fuel searched r ≡ done (none, r')
        → Fails readfn r'.received
        → Received readfn limit r new r'
        → Found r fuel searched
    last :
        (new : Bytes) (r' : Reader)
        → line_loop readfn fuel searched r ≡ done (some r'.rdbuf.used, r')
        → newline_at (contents r'.rdbuf) ≡ none
        → r'.eof ≡ true
        → Received readfn limit r new r'
        → Found r fuel searched
    found :
        (new : Bytes) (r' : Reader) (i : ℕ)
        → line_loop readfn fuel searched r ≡ done (some (i + 1), r')
        → newline_at (contents r'.rdbuf) ≡ some i
        → Received readfn limit r new r'
        → Found r fuel searched

  pub Received-append :
      (r : Reader) (a : Bytes) (r₁ : Reader) (b : Bytes) (r₂ : Reader)
      → Received readfn limit r a r₁
      → Received readfn limit r₁ b r₂
      → Received readfn limit r (a ++ b) r₂
  Received-append r a r₁ b r₂ f g =
      let f₁ = f.stored in
      let f₂ = f.received in
      record {
        ready = g.ready;
        stored = g.stored ∙ rw f₁ (append_assoc (contents r.rdbuf) a b);
        received = g.received ∙ rw f₂ (append_assoc r.received a b);
      }

  Found-step :
      (r : Reader) (fuel searched : ℕ) (s : Bytes) (r' : Reader)
      → line_loop readfn (suc fuel) searched r ≡ line_loop readfn fuel r.rdbuf.used r'
      → Received readfn limit r s r'
      → Found r' fuel r.rdbuf.used
      → Found r (suc fuel) searched
  Found-step r fuel searched s r' e g (lost new r'' h why g') =
      lost (s ++ new) r'' (e ∙ h) why (Received-append r s r' new r'' g g')
  Found-step r fuel searched s r' e g (last new r'' h n eof g') =
      last (s ++ new) r'' (e ∙ h) n eof (Received-append r s r' new r'' g g')
  Found-step r fuel searched s r' e g (found new r'' i h n g') =
      found (s ++ new) r'' i (e ∙ h) n (Received-append r s r' new r'' g g')

  pub line_loop_lem :
      (fuel searched : ℕ) (r : Reader)
      → limit < 2 ^ 62
      → IsRead readfn limit
      → IsReady readfn limit r
      → searched ≤ r.rdbuf.used
      → newline_at (take searched (contents r.rdbuf)) ≡ none
      → limit < fuel + length r.received
      → Found r fuel searched
  unfolding line_loop
  line_loop_lem zero searched r small reads g le clear enough =
      let seen = g.seen in absurd (omega (arith, seen, enough))
  line_loop_lem (suc fuel) searched r small reads g le clear enough =
      let s : Bytes = contents r.rdbuf in
      let count = length-read r.rdbuf.cells r.rdbuf.off r.rdbuf.used in
      let both = take-append-drop searched s in
      let front : length (take searched s) ≡ searched =
        let e = length-take searched s in ground (arith, e, count, le) in
      elim (Option-cases (newline_at (drop searched s))) [
        | inr (i, e) ↦
            let at : newline_at s ≡ some (searched + i) =
              ap newline_at (sym both)
              ∙ newline_at-append (take searched s) (drop searched s) i clear e
              ∙ ap (λ (n : ℕ). some (n + i)) front in
            found [] r (searched + i) (rw (line_loop, e) refl) at (record {
              ready = g;
              stored = sym (append-nil s);
              received = sym (append-nil r.received);
            })
        | inl e ↦
            let none_in : newline_at s ≡ none =
              ap newline_at (sym both)
              ∙ newline_at-append_none (take searched s) (drop searched s) clear e in
            elim (stream_fill_lem readfn limit r small reads g) [
              | failed r' h why k ↦ lost [] r' (rw (line_loop, e, h) refl) why k
              | ended r' h eof k ↦
                  let same = k.stored in
                  last [] r' (rw (line_loop, e, h) refl)
                    (ap newline_at (same ∙ append-nil s) ∙ none_in) eof k
              | more c t r' h used k ↦
                  let stored = k.stored in
                  let received = k.received in
                  let len : length r'.received ≡ length r.received + suc (length t) =
                    ap length received ∙ length-append r.received (c ∷ t) in
                  let searched_all : newline_at (take r.rdbuf.used (contents r'.rdbuf)) ≡ none =
                    ap (λ u. newline_at (take r.rdbuf.used u)) stored
                    ∙ ap newline_at (
                        take-append_le r.rdbuf.used s (c ∷ t) (omega (arith, count))
                        ∙ take_all r.rdbuf.used s (omega (arith, count)))
                    ∙ none_in in
                  Found-step r fuel searched (c ∷ t) r' (rw (line_loop, e, h) refl) k (
                    line_loop_lem fuel r.rdbuf.used r' small reads k.ready (omega (arith, used))
                      searched_all (omega (arith, len, enough)))
            ]
      ]
