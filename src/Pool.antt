-- ===== src/Pool.antt =====
-- Pool.h and Pool.cpp: blocks of memory that are cut into chunks of nine sizes, the lists of free chunks
-- by their size, and Pop and Push of an object that fits in a chunk. An address is a number; a block
-- is its first address.
pub mod Cut
mod Blocks
mod Owned
mod Keeps
mod Enough
mod Tests
use dubuframework.Base.{
  ℕ, zero, suc, ◌+◌, ◌-◌, ◌*◌, ◌≤◌, Bool, true, false, ◌&&◌, Option, none, some, List, [], ◌∷◌,
  ◌++◌, ltb, leb, ◌==◌, if◌then◌else◌, update,
}

-- DubuByteData::size_
abbrev pub block_size : ℕ
block_size = 3582410

-- PoolChunkList: the free chunks by their size, the last one first
abbrev pub ChunkList : Type 0
ChunkList = ℕ → List ℕ

-- How many chunks of a size a block has
unfoldable pub chunk_count : ℕ → ℕ
chunk_count len = let cnt = if ltb 64 len then 2500 else 10000 in if ltb 512 len then 100 else cnt

-- The inner loop of the constructor of DubuByteData: `left` chunks of size `len` from `pos` on, and
-- the position after them
unfoldable pub cut_chunks : ℕ → ℕ → ℕ → ChunkList → ChunkList × ℕ
cut_chunks zero len pos chunks = (chunks, pos)
cut_chunks (suc left) len pos chunks =
    cut_chunks left len (pos + len) (update chunks len (pos ∷ chunks len))

-- The outer loop, with `left` sizes to go
unfoldable pub cut_sizes : ℕ → ℕ → ℕ → ChunkList → ChunkList × ℕ
cut_sizes zero len pos chunks = (chunks, pos)
cut_sizes (suc left) len pos chunks =
    let (chunks', pos') = cut_chunks (chunk_count len) len pos chunks in
    cut_sizes left (len * 2) pos' chunks'

-- The constructor, for a block that begins at `ptr`
unfoldable pub new_block : ℕ → ChunkList → ChunkList × ℕ
new_block ptr chunks = cut_sizes 9 4 ptr chunks

-- PoolList with the `useCnt_` of the blocks, and PoolChunkList
pub record Pool : Type 0 where
  pub blocks : List ℕ
  pub use_cnt : ℕ → ℕ
  pub chunk_list : ChunkList

-- FindBlock; the source ends the program if there is none.
unfoldable pub find_block : ℕ → List ℕ → Option ℕ
find_block ptr [] = none
find_block ptr (block ∷ rest) =
    let later = find_block ptr rest in
    if leb block ptr && ltb ptr (block + block_size) then some block else later

-- std::bit_ceil of a size up to 1024: the loop looks at the powers from `len` on.
unfoldable pub bit_ceil_from : ℕ → ℕ → ℕ → ℕ
bit_ceil_from zero len size = len
bit_ceil_from (suc left) len size =
    let larger = bit_ceil_from left (len * 2) size in if leb size len then len else larger

abbrev pub bit_ceil : ℕ → ℕ
bit_ceil size = bit_ceil_from 10 1 size

-- `useCnt_.fetch_add(1)` or `fetch_sub(1)` of the block of a chunk
unfoldable pub count_use : (ℕ → ℕ) → Option ℕ → (ℕ → ℕ) → ℕ → ℕ
count_use f none use_cnt = use_cnt
count_use f (some block) use_cnt = update use_cnt block (f (use_cnt block))

-- Push of an object of `size` bytes, for sizes that the pool holds
unfoldable pub push_chunk : ℕ → ℕ → Pool → Pool
push_chunk size ptr p =
    let len = bit_ceil size in
    record p {
      chunk_list = update p.chunk_list len (ptr ∷ p.chunk_list len);
      use_cnt = count_use (λ n. n - 1) (find_block ptr p.blocks) p.use_cnt;
    }

-- The rest of Pop; if there is no chunk, the source takes the last one of an empty list.
unfoldable pub take_chunk : ℕ → List ℕ → Pool → Pool × Option ℕ
take_chunk len [] p = (p, none)
take_chunk len (ptr ∷ rest) p = (
  record p {
    chunk_list = update p.chunk_list len rest;
    use_cnt = count_use (λ n. n + 1) (find_block ptr p.blocks) p.use_cnt;
  },
  some ptr,
)

-- With no free chunk of the size a new block is made, whose memory begins at `fresh`.
unfoldable pub refilled : ℕ → List ℕ → Pool → Pool
refilled fresh [] p = record p {
  blocks = p.blocks ++ fresh ∷ [];
  chunk_list = (new_block fresh p.chunk_list).0;
}
refilled fresh (ptr ∷ rest) p = p

-- Pop
unfoldable pub pop_chunk : ℕ → ℕ → Pool → Pool × Option ℕ
pop_chunk size fresh p =
    let len = bit_ceil size in
    let p' = refilled fresh (p.chunk_list len) p in take_chunk len (p'.chunk_list len) p'
