-- ===== src/Log/Head.antt =====
-- kernel/log.c: the header block, written and read back.
use os_study.Prelude.{
  ℕ, ◌+◌, ◌<◌, ◌≡◌, refl, ◌∙◌, List, [], ◌∷◌, arith, update, length, update_ne, update_self,
}
use os_study.Log.{put_words, get_words, head_block}
use os_study.Log.Disk.{Block}

put_words_below : (blk : Block) (i j : ℕ) (xs : List ℕ) → j < i → put_words blk i xs j ≡ blk j
unfolding put_words
put_words_below blk i j [] h = refl
put_words_below blk i j (x ∷ xs) h =
    put_words_below (update blk i x) (i + 1) j xs (omega arith) ∙ update_ne blk i j x (omega arith)

get-put : (blk : Block) (i : ℕ) (xs : List ℕ) → get_words (put_words blk i xs) i (length xs) ≡ xs
unfolding get_words put_words
get-put blk i [] = refl
get-put blk i (x ∷ xs) = ground (
  arith,
  put_words_below (update blk i x) (i + 1) i xs,
  update_self blk i x,
  get-put (update blk i x) (i + 1) xs,
)

pub head_block_count : (blk : Block) (lh : List ℕ) → head_block blk lh 0 ≡ length lh
unfolding head_block
head_block_count blk lh = put_words_below (update blk 0 (length lh)) 1 0 lh (omega arith)

-- `read_head` reads from a block what `write_head` put there, whatever the block held before.
pub get_words-head_block :
    (blk : Block) (lh : List ℕ) → get_words (head_block blk lh) 1 (head_block blk lh 0) ≡ lh
get_words-head_block blk lh =
    rw (head_block_count blk lh) (unfold head_block in (get-put (update blk 0 (length lh)) 1 lh))
