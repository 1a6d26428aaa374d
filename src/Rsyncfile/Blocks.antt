-- ===== src/Rsyncfile/Blocks.antt =====
-- The blocks of a file, and the block size that rsync_chooseblocksize() answers.
use csup.Prelude.{
  ℕ, zero, suc, ◌+◌, ◌-◌, ◌*◌, ◌/◌, ◌%◌, ◌<◌, ◌≤◌, ◌≡◌, ◌⊎◌, inl, inr, refl, sym, ◌∙◌, ap, ◌++◌,
  ◌∷◌, drop_all, length-take, length-drop, take-append-drop, arith, false, Bool-cases, ltb→lt, ltb,
  leb, Bytes, [], length, none, some, take, drop, min,
}
use csup.Rsyncfile.{
  Rsyncfile, minblocksize, maxblocksize, maxblocks, search_from, search_region,
  rsync_chooseblocksize, rsync_open, rsync_nextblock, rsync_rollsum,
}

-- The loop never raises the best remainder, and ends at or below the first one.
search_from-le :
    (n bs fsize bestrem blocksize : ℕ) → (search_from n bs fsize (bestrem, blocksize)).0 ≤ bestrem
unfolding search_from
search_from-le zero bs fsize r b = omega arith
search_from-le (suc n) bs fsize r b = elim (Bool-cases (ltb (fsize % bs) r)) [
  | inl lt ↦
      rw (search_from, lt)
        (omega (arith, ltb→lt (fsize % bs) r lt, search_from-le n (bs + 1) fsize (fsize % bs) bs))
  | inr ge ↦ rw (search_from, ge) (search_from-le n (bs + 1) fsize r b)
]

search_from-first :
    (n bs fsize bestrem blocksize : ℕ)
    → (search_from (suc n) bs fsize (bestrem, blocksize)).0 ≤ fsize % bs
unfolding search_from
search_from-first n bs fsize r b = elim (Bool-cases (ltb (fsize % bs) r)) [
  | inl lt ↦ rw (search_from, lt) (search_from-le n (bs + 1) fsize (fsize % bs) bs)
  | inr ge ↦ rw (search_from, ge) (ground (arith, search_from-le n (bs + 1) fsize r b))
]

search_region_least :
    (q : ℕ) → 10 ≤ q → q < 1034 → search_region q ≡ (minblocksize, minblocksize + 20)
unfolding search_region
search_region_least q lo hi = ground arith

chosen-zero :
    (n k : ℕ)
    → n ≡ k * minblocksize
    → 10 * maxblocks ≤ n
    → n < 1034 * maxblocks
    → rsync_chooseblocksize n ≡ 0
unfolding rsync_chooseblocksize
chosen-zero n k e lo hi =
    let first = search_from-first 20 minblocksize n maxblocksize (n / maxblocks) in
    let none_left : n % minblocksize ≡ 0 = omega (arith, e) in
    rw
      (
        rsync_chooseblocksize,
        search_region_least (n / maxblocks) (omega (arith, lo)) (omega (arith, hi)),
      )
      (omega (arith, first, none_left))

stuck_block :
    (md5 : Bytes → Bytes) (rf : Rsyncfile)
    → rf.blocksize ≡ 0
    → rf.blockptr < length rf.content
    → (rf' : Rsyncfile) × (rsync_nextblock md5 rf ≡ some ([], rf')) × (rf'.blockptr ≡ rf.blockptr)
unfolding rsync_nextblock
stuck_block md5 rf z lt =
    let more : leb (length rf.content) rf.blockptr ≡ false = ground arith in
    let empty : min (length rf.content - rf.blockptr) rf.blocksize ≡ 0 = omega (arith, z) in
    (
      record rf {
        blockptr = rf.blockptr + 0;
        blocknum = rf.blocknum + 1;
        blockmd5 = md5 [];
        rsum = rsync_rollsum [];
      },
      rw (rsync_nextblock, more, empty) refl,
      omega arith,
    )

-- For a file from 5900 bytes on, and of fewer than 590 * 1034, whose size is a multiple of 1024,
-- rsync_chooseblocksize() answers 0, and rsync_nextblock() on the file opened with that size
-- answers an empty block and stays where it is.
pub chosen_blocksize_zero :
    (md5 : Bytes → Bytes) (content : Bytes) (k : ℕ)
    → length content ≡ k * minblocksize
    → 10 * maxblocks ≤ length content
    → length content < 1034 * maxblocks
    → (rsync_chooseblocksize (length content) ≡ 0)
      × (rf : Rsyncfile) × (rsync_nextblock md5 (rsync_open content 0) ≡ some ([], rf))
      × (rf.blockptr ≡ (rsync_open content 0).blockptr)
unfolding rsync_open
chosen_blocksize_zero md5 content k e lo hi =
    let zero_size = chosen-zero (length content) k e lo hi in
    let (rf, next, stays) = stuck_block md5 (rsync_open content 0) zero_size (omega (arith, lo)) in
    (zero_size, rf, next, stays)

drop-drop : (n p : ℕ) (xs : Bytes) → drop n (drop p xs) ≡ drop (p + n) xs
drop-drop n zero xs = ap (λ k. drop k xs) (omega arith)
drop-drop n (suc p) [] = drop_all n [] (omega arith) ∙ sym (drop_all (suc p + n) [] (omega arith))
drop-drop n (suc p) (x ∷ xs) =
    let next : suc p + n ≡ suc (p + n) = omega arith in
    drop-drop n p xs ∙ ap (λ k. drop k (x ∷ xs)) (sym next)

-- With a block size above 0 and the block pointer within the file, rsync_nextblock() answers the
-- end exactly at the end of the file; before it, it answers the next bytes of the file, at least
-- one and at most the block size of them, and the pointer moves behind them.
pub rsync_nextblock-advances :
    (md5 : Bytes → Bytes) (rf : Rsyncfile)
    → 0 < rf.blocksize
    → rf.blockptr ≤ length rf.content
    → ((rsync_nextblock md5 rf ≡ none) × (rf.blockptr ≡ length rf.content))
      ⊎ ((block : Bytes) × (rf' : Rsyncfile) × (rsync_nextblock md5 rf ≡ some (block, rf'))
          × (block ++ drop rf'.blockptr rf.content ≡ drop rf.blockptr rf.content)
          × (0 < length block)
          × (length block ≤ rf.blocksize)
          × (rf'.blockptr ≡ rf.blockptr + length block)
          × (rf'.content ≡ rf.content)
          × (rf'.blockptr ≤ length rf.content))
unfolding rsync_nextblock
rsync_nextblock-advances md5 rf pos le = elim (Bool-cases (leb (length rf.content) rf.blockptr)) [
  | inl end ↦ inl (rw (rsync_nextblock, end) refl, ground arith)
  | inr more ↦
      let n : ℕ = min (length rf.content - rf.blockptr) rf.blocksize in
      let block : Bytes = take n (drop rf.blockptr rf.content) in
      let len : length block ≡ n =
        omega (
          arith,
          length-take n (drop rf.blockptr rf.content),
          length-drop rf.blockptr rf.content,
        ) in
      let before : rf.blockptr < length rf.content = ground arith in
      inr (
        block,
        record rf {
          blockptr = rf.blockptr + n;
          blocknum = rf.blocknum + 1;
          blockmd5 = md5 block;
          rsum = rsync_rollsum block;
        },
        rw (rsync_nextblock, more) refl,
        ap (λ s. block ++ s) (sym (drop-drop n rf.blockptr rf.content))
            ∙ take-append-drop n (drop rf.blockptr rf.content),
        omega (arith, len, pos, before),
        omega (arith, len),
        omega (arith, len),
        refl,
        omega (arith, before),
      )
]
