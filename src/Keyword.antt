-- ===== src/Keyword.antt =====
-- keyword.c: the RCS keywords that are expanded, and how an expansion mode is spelled. Expanding a
-- line is Keyword/Expand.
pub mod Tags
pub mod Expand
pub mod Scan
pub mod Rewriting
pub mod Values
pub mod SameKey
pub mod Collapse
use csup.Prelude.{
  ℕ, ◌-◌, ◌^◌, Bool, true, false, not, ltb, if◌then◌else◌, Bytes, List, [], ◌∷◌, ◌++◌, Option, none,
  some, length, min,
}
use csup.Fattr.{same_bytes}

-- enum rcskey
pub data Rcskey : Type 0 where
  author cvsheader date header id locker log name rcsfile revision source state : Rcskey

-- struct tag
pub record Tag : Type 0 where
  pub ident : Bytes
  pub key : Rcskey
  pub enabled : Bool

-- struct keyword
pub record Keyword : Type 0 where
  pub keywords : List Tag
  pub minkeylen : ℕ
  pub maxkeylen : ℕ

-- EXPAND_DEFAULT to EXPAND_VALUE
pub data ExpandMode : Type 0 where
  default keyvalue keyvaluelocker key_only old binary value_only : ExpandMode

unfoldable pub tag_new : Bytes → Rcskey → Tag
tag_new ident key = record { ident = ident; key = key; enabled = true }

-- "Author", ..., "State"
abbrev pub tag_defaults : List (Bytes × Rcskey)
tag_defaults =
    (b'A' ∷ b'u' ∷ b't' ∷ b'h' ∷ b'o' ∷ b'r' ∷ [], author)
    ∷ (b'C' ∷ b'V' ∷ b'S' ∷ b'H' ∷ b'e' ∷ b'a' ∷ b'd' ∷ b'e' ∷ b'r' ∷ [], cvsheader)
    ∷ (b'D' ∷ b'a' ∷ b't' ∷ b'e' ∷ [], date)
    ∷ (b'H' ∷ b'e' ∷ b'a' ∷ b'd' ∷ b'e' ∷ b'r' ∷ [], header)
    ∷ (b'I' ∷ b'd' ∷ [], id)
    ∷ (b'L' ∷ b'o' ∷ b'c' ∷ b'k' ∷ b'e' ∷ b'r' ∷ [], locker)
    ∷ (b'L' ∷ b'o' ∷ b'g' ∷ [], log)
    ∷ (b'N' ∷ b'a' ∷ b'm' ∷ b'e' ∷ [], name)
    ∷ (b'R' ∷ b'C' ∷ b'S' ∷ b'f' ∷ b'i' ∷ b'l' ∷ b'e' ∷ [], rcsfile)
    ∷ (b'R' ∷ b'e' ∷ b'v' ∷ b'i' ∷ b's' ∷ b'i' ∷ b'o' ∷ b'n' ∷ [], revision)
    ∷ (b'S' ∷ b'o' ∷ b'u' ∷ b'r' ∷ b'c' ∷ b'e' ∷ [], source)
    ∷ (b'S' ∷ b't' ∷ b'a' ∷ b't' ∷ b'e' ∷ [], state)
    ∷ []

abbrev pub larger : ℕ → ℕ → ℕ
larger a b = if ltb a b then b else a

-- The loop of keyword_new() over the default tags.
unfoldable pub add_tags : Keyword → List (Bytes × Rcskey) → Keyword
unfolding tag_new
add_tags new [] = new
add_tags new ((ident, key) ∷ defaults) =
    add_tags
      (record {
        keywords = new.keywords ++ (tag_new ident key ∷ []);
        minkeylen = min (new.minkeylen) (length ident);
        maxkeylen = larger (new.maxkeylen) (length ident);
      })
      defaults

unfoldable pub keyword_new : Keyword
unfolding add_tags
keyword_new =
    add_tags (record { keywords = []; minkeylen = 2 ^ 64 - 1; maxkeylen = 0 }) tag_defaults

abbrev pub kv : Bytes
kv = b'k' ∷ b'v' ∷ []

-- `none` is -1.
unfoldable pub keyword_decode_expand : Bytes → Option ExpandMode
keyword_decode_expand expand =
    if same_bytes expand (b'.' ∷ [])
    then some default
    else if same_bytes expand kv
    then some keyvalue
    else if same_bytes expand (b'k' ∷ b'v' ∷ b'l' ∷ [])
    then some keyvaluelocker
    else if same_bytes expand (b'k' ∷ [])
    then some key_only
    else if same_bytes expand (b'o' ∷ [])
    then some old
    else if same_bytes expand (b'b' ∷ [])
    then some binary
    else if same_bytes expand (b'v' ∷ [])
    then some value_only
    else none

unfoldable pub keyword_encode_expand : ExpandMode → Bytes
keyword_encode_expand default = b'.' ∷ []
keyword_encode_expand keyvalue = kv
keyword_encode_expand keyvaluelocker = b'k' ∷ b'v' ∷ b'l' ∷ []
keyword_encode_expand key_only = b'k' ∷ []
keyword_encode_expand old = b'o' ∷ []
keyword_encode_expand binary = b'b' ∷ []
keyword_encode_expand value_only = b'v' ∷ []

-- The first tag of this name.
unfoldable pub lookup_tag : Bytes → List Tag → Option Tag
lookup_tag ident [] = none
lookup_tag ident (tag ∷ tags) =
    if same_bytes (tag.ident) ident then some tag else lookup_tag ident tags

-- `none` is -1, with errno ENOENT.
unfoldable pub keyword_alias : Keyword → Bytes → Bytes → Option Keyword
unfolding lookup_tag tag_new
keyword_alias keyword ident rcskey = elim (lookup_tag rcskey (keyword.keywords)) [
  | none ↦ none
  | some tag ↦ some (record keyword { keywords = tag_new ident (tag.key) ∷ keyword.keywords })
]

abbrev pub set_enabled : Bool → Tag → Tag
set_enabled enabled tag = record tag { enabled = enabled }

abbrev pub cons_tag : Tag → Option (List Tag) → Option (List Tag)
cons_tag tag none = none
cons_tag tag (some tags) = some (tag ∷ tags)

-- The loops of keyword_enable() and keyword_disable() for one tag, and for all.
unfoldable pub switch_one : Bool → Bytes → List Tag → Option (List Tag)
switch_one enabled ident [] = none
switch_one enabled ident (tag ∷ tags) =
    let rest = switch_one enabled ident tags in
    if same_bytes (tag.ident) ident
    then some (set_enabled enabled tag ∷ tags)
    else cons_tag tag rest

unfoldable pub switch_all : Bool → List Tag → List Tag
switch_all enabled [] = []
switch_all enabled (tag ∷ tags) = set_enabled enabled tag ∷ switch_all enabled tags

abbrev pub with_tags : Keyword → Option (List Tag) → Option Keyword
with_tags keyword none = none
with_tags keyword (some tags) = some (record keyword { keywords = tags })

unfoldable pub keyword_enable : Keyword → Bytes → Option Keyword
unfolding switch_one switch_all
keyword_enable keyword ident = with_tags keyword (
    if same_bytes ident (b'.' ∷ [])
    then some (switch_all true (keyword.keywords))
    else switch_one true ident (keyword.keywords))

unfoldable pub keyword_disable : Keyword → Bytes → Option Keyword
unfolding switch_one switch_all
keyword_disable keyword ident = with_tags keyword (
    if same_bytes ident (b'.' ∷ [])
    then some (switch_all false (keyword.keywords))
    else switch_one false ident (keyword.keywords))

-- Drops the tags that are not enabled.
unfoldable pub enabled_tags : List Tag → List Tag
enabled_tags [] = []
enabled_tags (tag ∷ tags) = let rest = enabled_tags tags in if tag.enabled then tag ∷ rest else rest

unfoldable pub keyword_prepare : Keyword → Keyword
unfolding enabled_tags
keyword_prepare keyword = record keyword { keywords = enabled_tags (keyword.keywords) }
