-- ===== src/Reactor/BufPool.antt =====
-- io_buf and buf_pool (lars_reactor/src/io_buf.cpp, buf_pool.cpp, include/buf_pool.h). The memory of
-- a buffer is its `length` bytes from `head` on; sizes are not negative.
pub mod Classes
use lars.Base.{
  ℕ, zero, suc, ◌+◌, ◌*◌, ◌/◌, Bool, true, false, List, [], ◌∷◌, ◌++◌, Option, none, some,
  if◌then◌else◌, ltb, leb, ◌==◌, length, drop, get_or, Result, ok, fault, ◌>>=◌, exits, assertion,
  out_of_bounds,
}
use lars.Base.Dict.{Dict, lookup, insert, has_key}

pub record IoBuf : Type 0 where
  pub capacity : ℕ
  pub head : ℕ
  pub bytes : List ℕ

unfoldable pub new_io_buf : ℕ → IoBuf
new_io_buf size = record { capacity = size; head = 0; bytes = [] }

unfoldable pub io_pop : ℕ → IoBuf → IoBuf
io_pop len b = record b { head = b.head + len; bytes = drop len b.bytes }

-- `adjust` moves the bytes to the front of the memory.
unfoldable pub io_adjust : IoBuf → IoBuf
io_adjust b = record b { head = 0 }

-- `copy` writes the other buffer's bytes over the own ones.
unfoldable pub io_copy : IoBuf → IoBuf → Result IoBuf
io_copy other b =
    if leb (length other.bytes) b.capacity
    then ok (record b { head = 0; bytes = other.bytes })
    else fault out_of_bounds

-- `pool` has the list of the free buffers of every size, `total_mem` counts kilobytes.
pub record BufPool : Type 0 where
  pub pool : Dict (List IoBuf)
  pub total_mem : ℕ

abbrev pub mem_limit : ℕ
mem_limit = 5 * 1024 * 1024

-- The list that starts at `_pool[k]`: NULL is the empty one.
abbrev pub free_at : ℕ → BufPool → List IoBuf
free_at k p = get_or (lookup k p.pool) []

unfoldable pub new_bufs : ℕ → ℕ → List IoBuf
unfolding new_io_buf
new_bufs cap zero = []
new_bufs cap (suc n) = new_io_buf cap ∷ new_bufs cap n

-- The list has its first buffer whatever `num` is: it is called with positive numbers only.
unfoldable pub make_io_buf_list : ℕ → ℕ → BufPool → BufPool
unfolding new_bufs
make_io_buf_list cap num p = record {
  pool = insert cap (new_bufs cap num) p.pool;
  total_mem = p.total_mem + cap / 1024 * num;
}

unfoldable pub new_buf_pool : BufPool
unfolding make_io_buf_list
new_buf_pool = make_io_buf_list 8388608 10 (
    make_io_buf_list 4194304 20 (
      make_io_buf_list 1048576 50 (
        make_io_buf_list 262144 200 (
          make_io_buf_list 65536 500 (
            make_io_buf_list 16384 1000
              (make_io_buf_list 4096 5000 (record { pool = []; total_mem = 0 })))))))

-- The size of the buffers that serve `n` bytes, if there is one.
unfoldable pub size_class : ℕ → Option ℕ
size_class n =
    if leb n 4096
    then some 4096
    else if leb n 16384
    then some 16384
    else if leb n 65536
    then some 65536
    else if leb n 262144
    then some 262144
    else if leb n 1048576
    then some 1048576
    else if leb n 4194304
    then some 4194304
    else if leb n 8388608
    then some 8388608
    else none

-- Steps 2 and 3 of `alloc_buf`: a new buffer where the list is empty, and else its first.
unfoldable pub take_buf : ℕ → BufPool → Result (IoBuf × BufPool)
unfolding new_io_buf
take_buf index p = elim (free_at index p) [
  | [] ↦
      if leb mem_limit (p.total_mem + index / 1024)
      then fault exits
      else ok (
        new_io_buf index,
        record { pool = insert index [] p.pool; total_mem = p.total_mem + index / 1024 },
      )
  | target ∷ rest ↦ ok (target, record p { pool = insert index rest p.pool })
]

-- `none` is the NULL that `alloc_buf` returns.
unfoldable pub alloc_buf : ℕ → BufPool → Result (Option IoBuf × BufPool)
unfolding size_class take_buf
alloc_buf n p = elim (size_class n) [
  | none ↦ ok (none, p)
  | some index ↦ take_buf index p >>= λ o. ok (some o.0, o.1)
]

unfoldable pub revert : IoBuf → BufPool → Result BufPool
revert b p =
    if has_key b.capacity p.pool
    then ok (record p {
      pool = insert b.capacity (record b { head = 0; bytes = [] } ∷ free_at b.capacity p) p.pool;
    })
    else fault assertion
