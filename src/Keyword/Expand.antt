-- ===== src/Keyword/Expand.antt =====
-- keyword.c: keyword_expand(), and diff_write() of diff.c.
use csup.Prelude.{
  zero, suc, Bool, ◌+◌, true, false, ◌&&◌, ◌||◌, ltb, List, ℕ, ◌||◌, ◌==◌, if◌then◌else◌, Bytes, [],
  ◌∷◌, ◌++◌, Option, none, some, length,
}
use csup.Prelude.Run.{out_of_fuel, Run, done, abort, ◌>>=◌}
use csup.Keyword.{
  Tag, Keyword, default, keyvalue, keyvaluelocker, key_only, old, binary, value_only, ExpandMode,
}
use csup.Keyword.Tags.{dollar, colon, blank, Diffinfo, find, Strptime, Strftime, tag_expand}

-- The bytes before the first ':', or all.
unfoldable pub before_colon : Bytes → Bytes
before_colon [] = []
before_colon (c ∷ s) = if c == colon then [] else c ∷ before_colon s

-- strncmp(ident, key, n) == 0, for the n bytes of the key.
unfoldable pub strncmp_same : Bytes → Bytes → Bool
strncmp_same ident [] = true
strncmp_same [] (k ∷ key) = k == 0
strncmp_same (c ∷ ident) (k ∷ key) = c == k && strncmp_same ident key

-- With the test of ident[n], which lies behind the identifier's NUL if the key has a NUL there.
unfoldable pub matches : Bytes → Bytes → Run Bool
unfolding strncmp_same
matches ident key =
    if strncmp_same ident key
    then if ltb (length ident) (length key) then abort else done (length ident == length key)
    else done false

-- The first tag with this name.
unfoldable pub matching : Bytes → List Tag → Run (Option Tag)
unfolding matches
matching key [] = done none
matching key (tag ∷ tags) =
    let rest = matching key tags in
    matches (tag.ident) key >>= λ same. if same then done (some tag) else rest

-- A key of a length between those of the default tags is looked up.
unfoldable pub tag_of_key : Keyword → Bytes → Run (Option Tag)
unfolding matching
tag_of_key keyword [] = done none
tag_of_key keyword (k ∷ key) =
    if ltb (length (k ∷ key)) (keyword.minkeylen) || ltb (keyword.maxkeylen) (length (k ∷ key))
    then done none
    else matching (k ∷ key) (keyword.keywords)

-- The tag that stands between two dollars, if any.
unfoldable pub tag_between : Keyword → Bytes → Run (Option Tag)
unfolding before_colon tag_of_key
tag_between keyword [] = done none
tag_between keyword (c ∷ s) = tag_of_key keyword (before_colon (c ∷ s))

-- From `cp`: what stands before a dollar, between it and the next one, and behind that.
unfoldable pub first_segment : Bytes → Option (Bytes × Bytes × Bytes)
unfolding find
first_segment rest = elim (find dollar rest) [
  | none ↦ none
  | some (before, behind) ↦ elim (find dollar behind) [
    | none ↦ none
    | some (segment, after) ↦ some (before, segment, after)
  ]
]

-- strlen(newval) bytes of it, none of a null pointer.
abbrev pub or_empty : Option Bytes → Bytes
or_empty none = []
or_empty (some newval) = newval

-- The line that is written: the new one, if there is one.
abbrev pub new_or_old : Bytes → Option Bytes → Bytes
new_or_old line none = line
new_or_old line (some new) = new

-- The first test of keyword_expand().
abbrev pub unless_kept : ExpandMode → Run (Option Bytes) → Run (Option Bytes)
unless_kept old expanded = done none
unless_kept binary expanded = done none
unless_kept _ expanded = expanded

module _ {Tm : Type 0} (strptime : Strptime Tm) (strftime : Strftime Tm) where
  -- What is written in place of the segment and the dollars around it.
  unfoldable pub expansion : Diffinfo → Bytes → Tag → Run Bytes
  unfolding tag_expand
  expansion di key tag =
      let value : Run Bytes =
        tag_expand strptime strftime (tag.key) di >>= λ newval. done (or_empty newval) in
      let full : Run Bytes = value >>= λ newval.
      done (dollar ∷ (key ++ (colon ∷ blank ∷ (newval ++ (blank ∷ dollar ∷ []))))) in
      elim (di.di_expand) [
        | key_only ↦ done (dollar ∷ (key ++ (dollar ∷ [])))
        | value_only ↦ value
        | default ↦ full
        | keyvalue ↦ full
        | keyvaluelocker ↦ full
        | old ↦ abort
        | binary ↦ abort
      ]

  -- `none`: the segment is left as it is.
  unfoldable pub replacement : Keyword → Diffinfo → Bytes → Run (Option Bytes)
  unfolding tag_between expansion
  replacement keyword di segment = tag_between keyword segment >>= λ found. elim found [
    | none ↦ done none
    | some tag ↦ expansion di (before_colon segment) tag >>= λ text. done (some text)
  ]

  -- One round from `again:`. `front` is what stands before `cp` in the line, which is a new one once
  -- a segment has been replaced. After a segment that is left the search goes on at its second
  -- dollar.
  unfoldable pub expand_from : Keyword → Diffinfo → ℕ → Bool → Bytes → Bytes → Run (Option Bytes)
  unfolding first_segment replacement
  expand_from keyword di zero changed front rest = out_of_fuel
  expand_from keyword di (suc fuel) changed front rest = elim (first_segment rest) [
    | none ↦ done (if changed then some (front ++ rest) else none)
    | some (before, segment, after) ↦ replacement keyword di segment >>= λ text. elim text [
      | none ↦
          expand_from keyword di fuel changed (front ++ (before ++ (dollar ∷ segment)))
            (dollar ∷ after)
      | some new ↦ expand_from keyword di fuel true (front ++ (before ++ new)) after
    ]
  ]

  -- The new line; `none` is 0. Each round leaves a shorter rest.
  unfoldable pub keyword_expand : Keyword → Diffinfo → Bytes → Run (Option Bytes)
  keyword_expand keyword di line =
      unless_kept (di.di_expand) (expand_from keyword di (length line + 1) false [] line)

  -- diff_write() of diff.c: the bytes it writes.
  unfoldable pub diff_write : Keyword → Diffinfo → Bytes → Run Bytes
  unfolding keyword_expand
  diff_write keyword di line =
      keyword_expand keyword di line >>= λ expanded. done (new_or_old line expanded)
