-- ===== src/Stream/Filled.antt =====
-- stream.c: a read buffer that is filled.
use csup.Prelude.{
  ℕ, subst, suc, ◌+◌, ◌^◌, ◌<◌, ◌≤◌, ◌≡◌, refl, sym, ◌∙◌, ap, arith, true, false, ◌==◌, Bool-cases,
  Option-cases, inl, inr, append-nil, Bytes, [], ◌∷◌, ◌++◌, length, length-append, Option, none,
  some,
}
use csup.Prelude.Run.{done}
use csup.Mux.Word.{add_size}
use csup.Stream.{Buf, buf_avail, contents, buf_more}
use csup.Stream.Prepared.{buf_prewrite_lem}
use csup.Stream.Reading.{Reader, stream_fill, stream_fill_default}
use csup.Stream.Stored.{copied, buf_more_lem}
use csup.Stream.Taken.{IsOk, avail_lem}

-- read() gives no more than there is room for, and not more than `limit` bytes in all.
abbrev pub IsRead : (Bytes → ℕ → Option Bytes) → ℕ → Type 0
IsRead readfn limit =
    (seen : Bytes) (room : ℕ) (s : Bytes)
    → length seen ≤ limit
    → readfn seen room ≡ some s
    → (length s ≤ room) × (length seen + length s ≤ limit)

-- Behind what was given before, read() ends, or it fails.
abbrev pub Ends : (Bytes → ℕ → Option Bytes) → Bytes → Type 0
Ends readfn seen = (room : ℕ) × (0 < room) × (readfn seen room ≡ some [])

abbrev pub Fails : (Bytes → ℕ → Option Bytes) → Bytes → Type 0
Fails readfn seen = (room : ℕ) × (0 < room) × (readfn seen room ≡ none)

-- What read() can have given, call by call.
pub data Given (readfn : Bytes → ℕ → Option Bytes) : Bytes → Type 0 where
  nothing : Given readfn []
  behind :
      (seen : Bytes) (room : ℕ) (s : Bytes)
      → Given readfn seen
      → 0 < room
      → readfn seen room ≡ some s
      → Given readfn (seen ++ s)

-- A reader whose buffer is valid and holds only what was received, all of it given by read(), and
-- which has seen the end only where read() ends.
pub record IsReady (readfn : Bytes → ℕ → Option Bytes) (limit : ℕ) (r : Reader) : Type 0 where
  pub ok : IsOk r.rdbuf
  pub size : 0 < r.rdbuf.size
  pub held : r.rdbuf.used ≤ length r.received
  pub seen : length r.received ≤ limit
  pub given : Given readfn r.received
  pub ends : r.eof ≡ true → Ends readfn r.received

-- The reader has received `new` and has it behind what it had.
pub record Received (readfn : Bytes → ℕ → Option Bytes) (limit : ℕ) (r : Reader) (new : Bytes)
    (r' : Reader) : Type 0 where
  pub ready : IsReady readfn limit r'
  pub stored : contents r'.rdbuf ≡ contents r.rdbuf ++ new
  pub received : r'.received ≡ r.received ++ new

module _ (readfn : Bytes → ℕ → Option Bytes) (limit : ℕ) where
  -- What stream_fill() comes to.
  pub data Filled (r : Reader) : Type 0 where
    failed :
        (r' : Reader)
        → stream_fill readfn r ≡ done (none, r')
        → Fails readfn r'.received
        → Received readfn limit r [] r'
        → Filled r
    ended :
        (r' : Reader)
        → stream_fill readfn r ≡ done (some 0, r')
        → r'.eof ≡ true
        → Received readfn limit r [] r'
        → Filled r
    more :
        (c : ℕ) (s : Bytes) (r' : Reader)
        → stream_fill readfn r ≡ done (some (suc (length s)), r')
        → r'.rdbuf.used ≡ r.rdbuf.used + suc (length s)
        → Received readfn limit r (c ∷ s) r'
        → Filled r

  same-IsReady :
      (r r' : Reader)
      → IsReady readfn limit r
      → IsOk r'.rdbuf
      → 0 < r'.rdbuf.size
      → r'.rdbuf.used ≡ r.rdbuf.used
      → r'.received ≡ r.received
      → (r'.eof ≡ true → Ends readfn r.received)
      → IsReady readfn limit r'
  same-IsReady r r' g ok size used rec ends =
      let held = g.held in
      let len : length r'.received ≡ length r.received = ap length rec in
      let seen = g.seen in
      record {
        ok = ok;
        size = size;
        held = omega (arith, held, len, used);
        seen = omega (arith, len, seen);
        given = subst (Given readfn) (sym rec) g.given;
        ends = λ y. subst (Ends readfn) (sym rec) (ends y);
      }

  -- When read() fails, nothing changes.
  default_none :
      (r : Reader)
      → r.eof ≡ false
      → (buf_avail r.rdbuf == 0) ≡ false
      → readfn r.received (buf_avail r.rdbuf) ≡ none
      → stream_fill_default readfn r ≡ done (none, r)
  unfolding stream_fill_default
  default_none r y room e = ground arith

  default_more :
      (r : Reader) (c : ℕ) (s : Bytes) (m : Buf)
      → r.eof ≡ false
      → (buf_avail r.rdbuf == 0) ≡ false
      → readfn r.received (buf_avail r.rdbuf) ≡ some (c ∷ s)
      → buf_more (copied r.rdbuf (c ∷ s)) (suc (length s)) ≡ done m
      → stream_fill_default readfn r
        ≡ done (some (suc (length s)), record r { rdbuf = m; received = r.received ++ c ∷ s })
  unfolding stream_fill_default
  default_more r c s m y room e h = ground arith

  pub stream_fill_lem :
      (r : Reader) → limit < 2 ^ 62 → IsRead readfn limit → IsReady readfn limit r → Filled r
  unfolding stream_fill stream_fill_default
  stream_fill_lem r small reads g =
      let ok = g.ok in
      let held = g.held in
      let seen = g.seen in
      let p = buf_prewrite_lem r.rdbuf ok g.size (omega (arith, held, seen, small)) in
      let b : Buf = p.prepared in
      let room = p.room in
      let avail = avail_lem b p.ok in
      let positive : 0 < buf_avail b = omega (arith, avail, room) in
      let some_room : (buf_avail b == 0) ≡ false = ground (arith, avail, room) in
      let same_used : (b.used == b.used) ≡ true = ground arith in
      let same_used_0 : (b.used == add_size b.used 0) ≡ true =
        let bound = p.ok.bound in
        let fits = p.ok.fits in
        let e : add_size b.used 0 ≡ b.used = omega (arith, bound, fits) in rw e same_used in
      let kept : (r' : Reader)
          → r'.rdbuf ≡ b
          → r'.received ≡ r.received
          → (r'.eof ≡ true → Ends readfn r.received)
          → Received readfn limit r [] r' =
        λ r' e e' ends. record {
          ready =
              same-IsReady r r' g (rw e p.ok) (rw e (omega (arith, room))) (rw e p.used) e' ends;
          stored = rw e p.same ∙ sym (append-nil (contents r.rdbuf));
          received = e' ∙ sym (append-nil r.received);
        } in
      elim (Bool-cases r.eof) [
        | inl y ↦
            let r' : Reader = record { rdbuf = b; eof = true; received = r.received } in
            ended r' (rw (stream_fill, p.result, y, same_used_0) refl) refl
              (kept r' refl refl (λ k. g.ends y))
        | inr y ↦ elim (Option-cases (readfn r.received (buf_avail b))) [
          | inl e ↦
              let r' : Reader = record r { rdbuf = b } in
              failed r' (rw (stream_fill, p.result, default_none r' y some_room e, same_used) refl)
                (buf_avail b, positive, e) (kept r' refl refl g.ends)
          | inr ([], e) ↦
              ended (record r { rdbuf = b; eof = true })
                (rw (stream_fill, p.result, y, some_room, e, same_used_0) refl) refl
                (kept (record r { rdbuf = b; eof = true }) refl refl
                  (λ k. (buf_avail b, positive, e)))
          | inr (c ∷ s, e) ↦
              let lim = reads r.received (buf_avail b) (c ∷ s) seen e in
              let fit = lim.0 in
              let total = lim.1 in
              let m = buf_more_lem b (c ∷ s) p.ok fit in
              let r' : Reader = record r { rdbuf = m.more; received = r.received ++ c ∷ s } in
              let used = p.used in
              let count = m.count in
              let size = m.same_size in
              let bound = p.ok.bound in
              let fits = p.ok.fits in
              let counted : (m.more.used == add_size b.used (suc (length s))) ≡ true =
                let sum : add_size b.used (suc (length s)) ≡ b.used + suc (length s) =
                  omega (arith, bound, fits, fit, avail) in
                rw (sum, count) (ground arith) in
              let len = length-append r.received (c ∷ s) in
              more c s r'
                (rw
                  (
                    stream_fill,
                    p.result,
                    default_more (record r { rdbuf = b }) c s m.more y some_room e m.result,
                    counted,
                  )
                  refl)
                (omega (arith, count, used))
                (record {
                  ready = record {
                    ok = m.ok;
                    size = omega (arith, size, room);
                    held = omega (arith, count, used, held, len);
                    seen = omega (arith, len, total);
                    given = behind r.received (buf_avail b) (c ∷ s) g.given positive e;
                    ends = λ k. absurd (cc);
                  };
                  stored = m.added ∙ ap (λ t. t ++ c ∷ s) p.same;
                  received = refl;
                })
        ]
      ]
