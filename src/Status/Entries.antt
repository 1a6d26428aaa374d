-- ===== src/Status/Entries.antt =====
-- status.c: entries of the status file and how they are read. An entry is the line of a file in the
-- directory that is open, of a directory that is entered, or of the open directory that is left.
use csup.Status.Reading.{unsorted, status_rdraw, entry, typed_entry, read_line}
use csup.Status.Writing.{cmd_of}
use csup.Prelude.{
  arith, ◌==◌, map, ℕ, ◌+◌, ◌-◌, ◌<◌, ◌≡◌, ◌≢◌, refl, sym, ◌∙◌, ap, subst, true, false, inl, inr,
  Bytes, List, [], ◌∷◌, ◌++◌, Option, none, some, All, List-cases,
}
use csup.Prelude.Run.{done}
use csup.Pathcomp.{is_absolute}
use csup.Pathcomp.InSync.{IsAt}
use csup.Pathcomp.Slashes.{HasNoSlash, child}
use csup.Proto.Escape.{
  space, proto_escape, proto_unescape, HasNoSpace, proto_escape-HasNoSpace,
  proto_unescape-proto_escape,
}
use csup.Proto.Lines.{continued, get_ascii-continued}
use csup.Stream.Reading.{newline}
use csup.Proto.Tokens.{proto_get_ascii, proto_get_char}
use csup.Status.{
  Statusrec, SrType, sr_dirdown, sr_checkoutlive, sr_checkoutdead, sr_filelive, sr_filedead,
  sr_dirup, raw, World, Status,
}

pub record Entry : Type 0 where
  pub kind : SrType
  pub dir : Bytes
  pub plain : Bytes
  pub text : Bytes

abbrev pub name : Entry → Bytes
name e = child e.dir e.plain

abbrev pub text_for : SrType → Bytes → Option Bytes
text_for sr_dirdown text = none
text_for _ text = some text

pub child_ne : (dir p : Bytes) → p ≢ [] → child dir p ≢ []
child_ne [] p ne e = ne e
child_ne (c ∷ dir) p ne e = cc

-- What stands behind the name.
abbrev pub tail : Entry → Option Bytes
tail e = text_for e.kind e.text

abbrev pub line : Entry → Bytes
line e = cmd_of e.kind ∷ space ∷ continued (proto_escape (name e)) (tail e)

pub get_cmd :
    (kind : SrType) (t : Bytes)
    → proto_get_char (some (cmd_of kind ∷ space ∷ t)) ≡ done (some (cmd_of kind), some t)
unfolding proto_get_char proto_get_ascii proto_unescape
get_cmd sr_dirdown t = refl
get_cmd sr_dirup t = refl
get_cmd sr_checkoutlive t = refl
get_cmd sr_checkoutdead t = refl
get_cmd sr_filelive t = refl
get_cmd sr_filedead t = refl

pub get_name :
    (n : Bytes) (rest : Option Bytes)
    → n ≢ []
    → proto_get_ascii (some (continued (proto_escape n) rest)) ≡ (some n, rest)
unfolding proto_unescape
get_name n rest ne =
    let back = proto_unescape-proto_escape n in
    let clear = proto_escape-HasNoSpace n in
    elim (List-cases (proto_escape n)) [
      | inl e ↦ absurd (ne (sym back ∙ ap proto_unescape e))
      | inr (c, t, e) ↦
          let clear' : All HasNoSpace (c ∷ t) = subst (All HasNoSpace) e clear in
          ap (λ s. proto_get_ascii (some (continued s rest))) e
          ∙ get_ascii-continued c t rest clear'
          ∙ ap (λ s. (some s, rest)) (ap proto_unescape (sym e) ∙ back)
    ]

-- An entry in its place: what it says of the open directory, and the name of a directory that is
-- entered has nothing to escape.
abbrev pub Place : Entry → SrType → Bytes → ℕ → Type 0
Place e sr_dirdown here depth = (e.dir ≡ here) × (proto_escape (name e) ≡ name e)
Place e sr_dirup here depth = (here ≡ name e) × (is_absolute e.dir ≡ false) × (0 < depth)
Place e _ here depth = e.dir ≡ here

abbrev pub next_dir : Entry → SrType → Bytes → Bytes
next_dir e sr_dirdown here = name e
next_dir e sr_dirup here = e.dir
next_dir e _ here = here

abbrev pub next_depth : SrType → ℕ → ℕ
next_depth sr_dirdown depth = depth + 1
next_depth sr_dirup depth = depth - 1
next_depth _ depth = depth

module _ {R : Type 0} (w : World R) where
  -- A line that starts with a type and a name.
  pub read_entry :
      (st : Status R) (kind : SrType) (n : Bytes) (rest : Option Bytes)
      → n ≢ []
      → read_line w st (cmd_of kind ∷ space ∷ continued (proto_escape n) rest)
        ≡ done (entry w st kind n rest)
  unfolding read_line
  read_entry st kind n rest ne =
      let cmd = get_cmd kind (continued (proto_escape n) rest) in
      let got = get_name n rest ne in
      let behind : (proto_get_ascii (some (continued (proto_escape n) rest))).1 ≡ rest =
        ap (λ g. g.1) got in
      rw (read_line, cmd, got, behind) (ap done (typed kind))
    where
      typed : (k : SrType) → typed_entry w st (some (cmd_of k)) n rest ≡ entry w st k n rest
      typed sr_dirdown = refl
      typed _ = refl

  pub record IsEntry (e : Entry) (prev : Option Statusrec) (here : Bytes) (depth : ℕ) : Type 0 where
    pub named : e.plain ≢ []
    pub no_slash : HasNoSlash e.plain
    pub sorted : unsorted prev e.kind (name e) ≡ false
    pub place : Place e e.kind here depth

  -- The entries that follow `prev` where `here` is open: each in its place and in order, and in the
  -- end no directory is open.
  abbrev pub WellFormed : Option Statusrec → Bytes → ℕ → List Entry → Type 0
  WellFormed prev here depth [] = (here ≡ []) × (depth ≡ 0)
  WellFormed prev here depth (e ∷ es) =
      IsEntry e prev here depth
      × WellFormed (some (raw e.kind (name e))) (next_dir e e.kind here) (next_depth e.kind depth)
          es

  -- The lines that are still to be read, and the end behind them.
  abbrev pub Gives : R → List Bytes → Type 0
  Gives rd [] = (rd' : R) × (w.getln rd ≡ done (none, rd')) × (w.at_eof rd' ≡ true)
  Gives rd (l ∷ ls) = (rd' : R) × (w.getln rd ≡ done (some l, rd')) × Gives rd' ls

  abbrev pub printed : List Entry → Bytes
  printed [] = []
  printed (e ∷ es) = (line e ++ (newline ∷ [])) ++ printed es

  -- A status that is copied: what is to be read is well-formed, no error has come up, and pathcomp
  -- is at rest in the open directory.
  pub record Ready (st : Status R) (here : Bytes) (es : List Entry) (out : Bytes) : Type 0 where
    pub source : R
    pub reads : st.rd ≡ some source
    pub gives : Gives source (map line es)
    pub not_ended : st.eof ≡ false
    pub no_error : st.error ≡ none
    pub writes : st.wr ≡ some out
    pub at : IsAt st.pc here
    pub ordered : WellFormed st.previous here st.depth es

  entry_lem :
      (st : Status R) (e : Entry) (kind : SrType) (rest : Option Bytes) (here : Bytes)
      → unsorted st.previous kind (name e) ≡ false
      → Place e kind here st.depth
      → entry w st kind (name e) rest ≡ (
        some (raw kind (name e), rest),
        record st { depth = next_depth kind st.depth; previous = some (raw kind (name e)) },
      )
  unfolding entry
  entry_lem st e sr_dirdown rest here s p = rw (entry, s) refl
  entry_lem st e sr_dirup rest here s p =
      let open_dir = p.2 in
      let some_open : (st.depth == 0) ≡ false = ground arith in rw (entry, some_open, s) refl
  entry_lem st e sr_checkoutlive rest here s p = rw (entry, s) refl
  entry_lem st e sr_checkoutdead rest here s p = rw (entry, s) refl
  entry_lem st e sr_filelive rest here s p = rw (entry, s) refl
  entry_lem st e sr_filedead rest here s p = rw (entry, s) refl

  -- The status behind an entry that was read.
  abbrev pub advanced : Status R → R → Entry → Status R
  advanced st rd e = record st {
    rd = some rd;
    linenum = st.linenum + 1;
    depth = next_depth e.kind st.depth;
    previous = some (raw e.kind (name e));
  }

  rdraw_line :
      (st : Status R) (rd rd' : R) (l : Bytes)
      → st.rd ≡ some rd
      → st.eof ≡ false
      → w.getln rd ≡ done (some l, rd')
      → status_rdraw w st ≡ read_line w (record st { rd = some rd'; linenum = st.linenum + 1 }) l
  unfolding status_rdraw
  rdraw_line st rd rd' l e k g = ground arith

  pub rdraw_lem :
      (st : Status R) (here : Bytes) (e : Entry) (es : List Entry) (out : Bytes)
      → Ready st here (e ∷ es) out
      → (rd : R) × (status_rdraw w st ≡ done (some (raw e.kind (name e), tail e), advanced st rd e))
        × Gives rd (map line es)
  rdraw_lem st here e es out g =
      let (rd, got, more) = g.gives in
      let i = g.ordered.0 in
      let st' : Status R = record st { rd = some rd; linenum = st.linenum + 1 } in
      let read = read_entry st' e.kind (name e) (tail e) (child_ne e.dir e.plain i.named) in
      let typed = entry_lem st' e e.kind (tail e) here i.sorted i.place in
      (rd, rdraw_line st g.source rd (line e) g.reads g.not_ended got ∙ read ∙ ap done typed, more)
