-- ===== src/Proto/Lines.antt =====
-- Lines that proto_printf() writes, and the tokens that are read from them.
use csup.Prelude.{
  ℕ, ◌+◌, ◌<◌, ◌^◌, ◌≡◌, ◌≢◌, refl, subst, sym, ◌∙◌, ap, arith, true, false, ◌==◌, Bytes, List, [],
  ◌∷◌, ◌++◌, Option, some, none, All, map, append-nil, inl, inr, List-cases, ltb→lt,
}
use mathlib.Core.Option
use csup.Prelude.Run.{done, abort}
use csup.Prelude.Int.{ℤ, pos, negsuc}
use csup.Numbers.{print, print_signed, strtoll, cast, digit_char}
use csup.Numbers.RoundTrip.{print-All, print_cons, IsInt64}
use csup.Fattr.Text.{whole}
use csup.Fattr.Text.Sent.{whole-strtoll, whole-signed, cast-pos}
use csup.Proto.Escape.{
  space, backslash, proto_escape, proto_unescape, HasNoSpace, proto_escape-HasNoSpace,
  proto_unescape-proto_escape, unescape-plain,
}
use csup.Proto.Tokens.{
  before_space, behind_space, proto_get_ascii, proto_get_rest, Got, proto_get_int, proto_get_sizet,
  proto_get_time, get_with, asciitoint, fits_int, Arg, string_arg, int_arg, time_arg, size_arg,
  convert, directive, proto_printf,
}

-- A token ends at a space, or at the end of the line.
before-HasNoSpace : (t rest : Bytes) → All HasNoSpace t → before_space (t ++ (space ∷ rest)) ≡ t
before-HasNoSpace [] rest h = refl
before-HasNoSpace (c ∷ t) rest h = rw h.0 (ap (λ u. c ∷ u) (before-HasNoSpace t rest h.1))

behind-HasNoSpace :
    (t rest : Bytes) → All HasNoSpace t → behind_space (t ++ (space ∷ rest)) ≡ some rest
behind-HasNoSpace [] rest h = refl
behind-HasNoSpace (c ∷ t) rest h = rw h.0 (behind-HasNoSpace t rest h.1)

before_last : (t : Bytes) → All HasNoSpace t → before_space t ≡ t
before_last [] h = refl
before_last (c ∷ t) h = rw h.0 (ap (λ u. c ∷ u) (before_last t h.1))

behind_last : (t : Bytes) → All HasNoSpace t → behind_space t ≡ none
behind_last [] h = refl
behind_last (c ∷ t) h = rw h.0 (behind_last t h.1)

-- What follows the first token of a line.
abbrev pub continued : Bytes → Option Bytes → Bytes
continued t none = t
continued t (some rest) = t ++ (space ∷ rest)

pub get_ascii-continued :
    (c : ℕ) (t : Bytes) (rest : Option Bytes)
    → All HasNoSpace (c ∷ t)
    → proto_get_ascii (some (continued (c ∷ t) rest)) ≡ (some (proto_unescape (c ∷ t)), rest)
unfolding proto_get_ascii
get_ascii-continued c t none h =
    rw (proto_get_ascii, before_last (c ∷ t) h, behind_last (c ∷ t) h) refl
get_ascii-continued c t (some rest) h =
    rw (proto_get_ascii, before-HasNoSpace (c ∷ t) rest h, behind-HasNoSpace (c ∷ t) rest h) refl

-- A byte of a number: no space, no backslash.
abbrev IsNumeric : ℕ → Type 0
IsNumeric c = HasNoSpace c × ((c == backslash) ≡ false)

char-IsNumeric : (d : ℕ) → d < 16 → IsNumeric (digit_char d)
char-IsNumeric d h = (ground arith, ground arith)

unescape-IsNumeric : (t : Bytes) → All IsNumeric t → proto_unescape t ≡ t
unfolding proto_unescape
unescape-IsNumeric [] h = refl
unescape-IsNumeric (c ∷ t) h = unescape-plain c t h.0.1 ∙ ap (λ u. c ∷ u) (unescape-IsNumeric t h.1)

numeric-HasNoSpace : (t : Bytes) → All IsNumeric t → All HasNoSpace t
numeric-HasNoSpace [] h = tt
numeric-HasNoSpace (c ∷ t) h = (h.0.0, numeric-HasNoSpace t h.1)

-- The token of a number.
get_numeric :
    (c : ℕ) (t : Bytes) (rest : Option Bytes)
    → All IsNumeric (c ∷ t)
    → proto_get_ascii (some (continued (c ∷ t) rest)) ≡ (some (c ∷ t), rest)
get_numeric c t rest h =
    get_ascii-continued c t rest (numeric-HasNoSpace (c ∷ t) h)
    ∙ ap (λ u. (some u, rest)) (unescape-IsNumeric (c ∷ t) h)

get_print :
    (n : ℕ) (rest : Option Bytes)
    → proto_get_ascii (some (continued (print 10 n) rest)) ≡ (some (print 10 n), rest)
get_print n rest =
    let (c, t, e) = print_cons 10 (omega arith) (omega arith) n in
    let all = print-All 10 (omega arith) (omega arith) IsNumeric n char-IsNumeric in
    rw e (get_numeric c t rest (subst (All IsNumeric) e all))

get_print_signed :
    (v : ℤ) (rest : Option Bytes)
    → proto_get_ascii (some (continued (print_signed 10 v) rest)) ≡ (some (print_signed 10 v), rest)
unfolding print_signed
get_print_signed (pos n) rest = get_print n rest
get_print_signed (negsuc n) rest =
    let all = print-All 10 (omega arith) (omega arith) IsNumeric (n + 1) char-IsNumeric in
    get_numeric b'-' (print 10 (n + 1)) rest ((refl, refl), all)

-- A field of a line, as the commands of the protocol have them: "%s", "%d", "%t" and "%z".
pub data Field : Type 0 where
  string : Bytes → Field
  int : ℤ → Field
  time : ℤ → Field
  size : ℕ → Field

abbrev pub letter : Field → ℕ
letter (string s) = b's'
letter (int v) = b'd'
letter (time v) = b't'
letter (size n) = b'z'

abbrev pub argument : Field → Arg
argument (string s) = string_arg s
argument (int v) = int_arg v
argument (time v) = time_arg v
argument (size n) = size_arg n

abbrev pub format_behind : List Field → Bytes
format_behind [] = []
format_behind (f ∷ fs) = space ∷ b'%' ∷ letter f ∷ format_behind fs

-- The format of a line, with a space between two fields.
abbrev pub format_of : Field → List Field → Bytes
format_of f fs = b'%' ∷ letter f ∷ format_behind fs

-- The value as a field.
abbrev pub as_field {ℓ} : {A : Type ℓ} → (A → Field) → Got A → Got Field
as_field field got = (Option.map field got.0, got.1)

-- The function that reads a field of the same kind.
abbrev pub get_field : Field → Option Bytes → Got Field
get_field (string s) line = as_field string (proto_get_ascii line)
get_field (int v) line = as_field int (proto_get_int line 10)
get_field (time v) line = as_field time (proto_get_time line)
get_field (size n) line = as_field size (proto_get_sizet line 10)

-- Fields read one after the other.
abbrev pub get_fields : List Field → Option Bytes → Option (List Field) × Option Bytes
get_fields [] line = (some [], line)
get_fields (f ∷ fs) line =
    let (v, rest) = get_field f line in
    let (vs, left) = get_fields fs rest in
    (elim v [ none ↦ none | some a ↦ Option.map (λ bs. a ∷ bs) vs ], left)

-- The text of a field.
abbrev written : Field → Bytes
written (string s) = proto_escape s
written (int v) = print_signed 10 v
written (time v) = print_signed 10 v
written (size n) = print 10 n

abbrev rest_of : List Field → Option Bytes
rest_of [] = none
rest_of (f ∷ fs) = some (continued (written f) (rest_of fs))

-- Strings that are not empty, and numbers in the ranges that are read back.
abbrev pub IsSendable : Field → Type 0
IsSendable (string s) = s ≢ []
IsSendable (int v) = fits_int v ≡ true
IsSendable (time v) = IsInt64 v
IsSendable (size n) = n < 2 ^ 63

get_string :
    (s : Bytes) (rest : Option Bytes)
    → s ≢ []
    → proto_get_ascii (some (continued (proto_escape s) rest)) ≡ (some s, rest)
get_string s rest h = elim (List-cases (proto_escape s)) [
  | inl e ↦ absurd (
      h (
        sym (proto_unescape-proto_escape s)
        ∙ ap proto_unescape e
        ∙ (unfold proto_unescape in refl)))
  | inr (c, t, e) ↦
      let clean : All HasNoSpace (c ∷ t) = subst (All HasNoSpace) e (proto_escape-HasNoSpace s) in
      let back : proto_unescape (c ∷ t) ≡ s =
        ap proto_unescape (sym e) ∙ proto_unescape-proto_escape s in
      rw e (get_ascii-continued c t rest clean ∙ ap (λ u. (some u, rest)) back)
]

fits_int-IsInt64 : (v : ℤ) → fits_int v ≡ true → IsInt64 v
fits_int-IsInt64 (pos n) h = let k = ltb→lt n (2 ^ 31) h in omega (arith, k)
fits_int-IsInt64 (negsuc n) h = let k = ltb→lt n (2 ^ 31) h in omega (arith, k)

get_with-token {ℓ} :
    {A : Type ℓ} (read : Bytes → Option A) (line : Option Bytes) (t : Bytes) (rest : Option Bytes)
    (v : A)
    → proto_get_ascii line ≡ (some t, rest)
    → read t ≡ some v
    → get_with read line ≡ (some v, rest)
get_with-token read line t rest v e k =
    ap (λ (p : Got Bytes). (elim p.0 [ none ↦ none | some u ↦ read u ], p.1)) e
    ∙ ap (λ w. (w, rest)) k

named {ℓ} :
    {A : Type ℓ} (field : A → Field) {got : Got A} {v : A} {rest : Option Bytes}
    → got ≡ (some v, rest)
    → as_field field got ≡ (some (field v), rest)
named field e = ap (as_field field) e

get_field-written :
    (f : Field) (rest : Option Bytes)
    → IsSendable f
    → get_field f (some (continued (written f) rest)) ≡ (some f, rest)
unfolding proto_get_int proto_get_time proto_get_sizet asciitoint
get_field-written (string s) rest h = named string (get_string s rest h)
get_field-written (int v) rest h =
    let read = whole-signed 10 v (omega arith) (omega arith) (fits_int-IsInt64 v h) in
    named int (
      get_with-token (λ t. asciitoint t 10) _ (print_signed 10 v) rest v (get_print_signed v rest)
        (rw (asciitoint, read, h) refl))
get_field-written (time v) rest h =
    let read = whole-signed 10 v (omega arith) (omega arith) h in
    named time (
      get_with-token (λ t. whole (strtoll 10 t)) _ (print_signed 10 v) rest v
        (get_print_signed v rest) read)
get_field-written (size n) rest h =
    let read = whole-strtoll 10 n (omega arith) (omega arith) h in
    let same = cast-pos 64 n (omega (arith, h)) in
    let convert : Bytes → Option ℕ =
      λ t. elim (whole (strtoll 10 t)) [ none ↦ none | some v ↦ some (cast 64 v) ] in
    named size
      (get_with-token convert _ (print 10 n) rest n (get_print n rest) (rw (read, same) refl))

get_fields-cons :
    (f : Field) (fs : List Field) (line rest left : Option Bytes)
    → get_field f line ≡ (some f, rest)
    → get_fields fs rest ≡ (some fs, left)
    → get_fields (f ∷ fs) line ≡ (some (f ∷ fs), left)
get_fields-cons f fs line rest left e k =
    ap
      (λ (p : Got Field). (
        elim p.0 [ none ↦ none | some a ↦ Option.map (λ bs. a ∷ bs) (get_fields fs p.1).0 ],
        (get_fields fs p.1).1,
      ))
      e
    ∙ ap (λ (q : Option (List Field) × Option Bytes). (Option.map (λ bs. f ∷ bs) q.0, q.1)) k

get_fields-written :
    (f : Field) (fs : List Field)
    → All IsSendable (f ∷ fs)
    → get_fields (f ∷ fs) (rest_of (f ∷ fs)) ≡ (some (f ∷ fs), none)
get_fields-written f [] h = get_fields-cons f [] _ none none (get_field-written f none h.0) refl
get_fields-written f (g ∷ fs) h =
    get_fields-cons f (g ∷ fs) _ (rest_of (g ∷ fs)) none
      (get_field-written f (rest_of (g ∷ fs)) h.0) (get_fields-written g fs h.1)

module _ (user_of group_of : ℕ → Option Bytes) where
  directive-written :
      (f : Field) (args : List Arg)
      → directive user_of group_of (letter f) (argument f ∷ args) ≡ done (written f, args)
  unfolding directive convert
  directive-written (string s) args = refl
  directive-written (int v) args = refl
  directive-written (time v) args = refl
  directive-written (size n) args = refl

  abbrev behind : List Field → Bytes
  behind [] = []
  behind (f ∷ fs) = space ∷ (written f ++ behind fs)

  continued-behind :
      (f : Field) (fs : List Field) → continued (written f) (rest_of fs) ≡ written f ++ behind fs
  continued-behind f [] = sym (append-nil (written f))
  continued-behind f (g ∷ fs) = ap (λ t. written f ++ (space ∷ t)) (continued-behind g fs)

  printf-behind :
      (fs : List Field)
      → proto_printf user_of group_of (format_behind fs) (map argument fs) ≡ done (behind fs)
  unfolding proto_printf
  printf-behind [] = refl
  printf-behind (f ∷ fs) = rw (directive-written f (map argument fs), printf-behind fs) refl

  -- A line of fields with a space between them, printed from values that are in range and strings
  -- that are not empty, is read back field by field, and nothing is left.
  pub get_fields-proto_printf :
      (f : Field) (fs : List Field)
      → All IsSendable (f ∷ fs)
      → (line : Bytes) × (proto_printf user_of group_of (format_of f fs) (map argument (f ∷ fs))
          ≡ done line)
        × (get_fields (f ∷ fs) (some line) ≡ (some (f ∷ fs), none))
  unfolding proto_printf
  get_fields-proto_printf f fs h = (
    written f ++ behind fs,
    rw (directive-written f (map argument fs), printf-behind fs) refl,
    subst (λ line. get_fields (f ∷ fs) (some line) ≡ (some (f ∷ fs), none)) (continued-behind f fs)
        (get_fields-written f fs h),
  )

-- Behind the last token of a line, proto_get_rest() has no defined behaviour: it follows the null
-- pointer that is left, though the token before it was read.
pub proto_get_rest-last :
    (c : ℕ) (t : Bytes)
    → All HasNoSpace (c ∷ t)
    → (rest : Option Bytes) × (proto_get_ascii (some (c ∷ t))
        ≡ (some (proto_unescape (c ∷ t)), rest))
      × (proto_get_rest rest ≡ abort)
unfolding proto_get_rest
proto_get_rest-last c t h = (none, get_ascii-continued c t none h, refl)
