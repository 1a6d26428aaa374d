-- ===== src/Tests/Diffs.antt =====
-- Keywords in lines, and edit scripts.
use csup.Prelude.{ℕ, ◌≡◌, refl, arith, true, Bytes, List, [], ◌∷◌, ◌++◌, Option, none, some, All}
use csup.Prelude.Run.{Run, done, abort}
use csup.Keyword.{
  add_tags, tag_new, ExpandMode, keyvalue, keyword_new, keyword_decode_expand,
  keyword_encode_expand,
}
use csup.Keyword.Tags.{
  find, tag_expand, cvsdate, rcsdatetotm, tag_value, rcsfile_name, behind_last_slash, Diffinfo,
  dollar,
}
use csup.Keyword.Expand.{
  keyword_expand, expand_from, first_segment, replacement, expansion, tag_between, tag_of_key,
  matching, strncmp_same, before_colon, diff_write, matches,
}
use csup.Keyword.SameKey.{collapsing}
use csup.Keyword.Collapse.{diff_write-diff_write}
use csup.Diff.{diff_apply}
use csup.Diff.Script.{Edit, adds, deletes, edited}
use csup.Diff.Commands.{encode}
use csup.Diff.Applied.{Writes, WritesAdded}
use csup.Diff.Edited.{diff_apply-edited, dot_plus}

-- A date that is always read, and printed as one digit.
abbrev any_date : Bytes → Bytes → Option (ℕ × Bytes)
any_date text format = some (7, [])

abbrev one_digit : Bytes → ℕ → Bytes
one_digit format tm = b'7' ∷ []

abbrev info : ExpandMode → Diffinfo
info mode = record {
  di_rcsfile = b'f' ∷ b',' ∷ b'v' ∷ [];
  di_cvsroot = b'/' ∷ b'r' ∷ [];
  di_revnum = b'1' ∷ b'.' ∷ b'2' ∷ [];
  di_revdate = b'0' ∷ b'0' ∷ b'.' ∷ b'1' ∷ [];
  di_author = b'm' ∷ [];
  di_tag = none;
  di_state = b'E' ∷ [];
  di_expand = mode;
}

-- "x$Id$"
abbrev with_id : Bytes
with_id = b'x' ∷ dollar ∷ b'I' ∷ b'd' ∷ dollar ∷ []

-- "x$Id: f,v 1.2 7 m E $"
abbrev expanded_id : Bytes
expanded_id =
    b'x' ∷ dollar ∷ b'I' ∷ b'd' ∷ b':' ∷ b' ' ∷ b'f' ∷ b',' ∷ b'v' ∷ b' ' ∷ b'1' ∷ b'.' ∷ b'2'
    ∷ b' ' ∷ b'7' ∷ b' ' ∷ b'm' ∷ b' ' ∷ b'E' ∷ b' ' ∷ dollar ∷ []

id_expands : diff_write any_date one_digit keyword_new (info keyvalue) with_id ≡ done expanded_id
unfolding diff_write keyword_expand expand_from first_segment find replacement expansion tag_expand
    cvsdate rcsdatetotm tag_between tag_of_key matching matches strncmp_same before_colon tag_value
    rcsfile_name behind_last_slash keyword_new add_tags tag_new
id_expands = refl

-- A NUL in the line makes strncmp() stop early, and the test behind it read beyond the identifier.
behind_nul : matches (b'I' ∷ b'd' ∷ []) (b'I' ∷ b'd' ∷ 0 ∷ b'x' ∷ []) ≡ abort
unfolding matches strncmp_same
behind_nul = refl

diff_write-diff_write_example :
    (keys : Bytes) × (diff_write any_date one_digit keyword_new
        (collapsing (info keyvalue))
        expanded_id
      ≡ done keys)
    × (diff_write any_date one_digit keyword_new (collapsing (info keyvalue)) with_id ≡ done keys)
diff_write-diff_write_example =
    diff_write-diff_write any_date one_digit keyword_new (info keyvalue) tt
      (record {
        plain_rcsfile = (refl, (refl, (refl, tt)));
        plain_cvsroot = (refl, (refl, tt));
        plain_revnum = (refl, (refl, (refl, tt)));
        plain_author = (refl, tt);
        plain_tag = tt;
        plain_state = (refl, tt);
      })
      (λ tm. (refl, tt)) with_id expanded_id id_expands

-- Three lines, of which the second is replaced by one that starts with a dot.
-- The last line has a keyword.
abbrev three_lines : List Bytes
three_lines = (b'p' ∷ 10 ∷ []) ∷ (b'q' ∷ 10 ∷ []) ∷ (with_id ++ (10 ∷ [])) ∷ []

abbrev change : List Edit
change = deletes 2 1 ∷ adds 2 ((b'.' ∷ b'z' ∷ 10 ∷ []) ∷ []) ∷ []

abbrev write_values : Bytes → Run Bytes
write_values = diff_write any_date one_digit keyword_new (info keyvalue)

abbrev value_or_empty : Run Bytes → Bytes
value_or_empty (done text) = text
value_or_empty _ = []

abbrev text_of : Bytes → Bytes
text_of line = value_or_empty (write_values line)

lines_written : All (Writes write_values text_of) three_lines
unfolding diff_write keyword_expand expand_from first_segment find replacement expansion tag_expand
    cvsdate rcsdatetotm tag_between tag_of_key matching matches strncmp_same before_colon tag_value
    rcsfile_name behind_last_slash keyword_new add_tags tag_new
lines_written = (refl, (refl, (refl, tt)))

added_written : WritesAdded write_values text_of change
unfolding diff_write keyword_expand expand_from first_segment
added_written = ((refl, tt), tt)

changed :
    edited change three_lines
    ≡ (b'p' ∷ 10 ∷ []) ∷ (b'.' ∷ b'z' ∷ 10 ∷ []) ∷ (with_id ++ (10 ∷ [])) ∷ []
changed = refl

diff_apply-edited_example :
    diff_apply write_values true (encode true change ++ ((b'.' ∷ b'+' ∷ 10 ∷ []) ∷ [])) three_lines
    ≡ done (some (b'p' ∷ 10 ∷ b'.' ∷ b'z' ∷ 10 ∷ expanded_id))
unfolding diff_write keyword_expand expand_from first_segment find replacement expansion tag_expand
    cvsdate rcsdatetotm tag_between tag_of_key matching matches strncmp_same before_colon tag_value
    rcsfile_name behind_last_slash keyword_new add_tags tag_new
diff_apply-edited_example =
    diff_apply-edited write_values text_of dot_plus change three_lines
      (omega arith, omega arith, (omega arith, tt))
      (omega arith, omega arith, omega arith, (omega arith, omega arith, omega arith, tt))
      (omega arith) lines_written added_written

-- The modes are spelled as they are read.
modes_spelled : keyword_decode_expand (keyword_encode_expand keyvalue) ≡ some keyvalue
unfolding keyword_decode_expand keyword_encode_expand
modes_spelled = refl
