-- ===== src/Filesystem/FileDescription.antt =====
-- `kernel/filesystem/file_description.cpp`: the position in an open file, and the requests that are
-- passed on to its node. `size_t` is 32 bits wide; an `int` offset is 0 or more, or below 0.
use cyan_oskernel.Prelude.{
  ℕ, suc, ◌+◌, ◌-◌, ◌%◌, ◌^◌, ◌≤◌, ◌<◌, ◌≡◌, not, ◌&&◌, Option, none, some, arith, ltb, ◌==◌,
  if◌then◌else◌,
}

-- The current position, and `m_node.m_size`, which is 0 for a node without a size.
pub record FileDescription : Type 0 where
  pub current_position : ℕ
  pub node_size : ℕ

pub data SeekOrigin : Type 0 where
  seek_set seek_current seek_end : SeekOrigin

-- An offset: `forward n` is n, and `backward n` is -(n + 1).
pub data Offset : Type 0 where
  forward backward : ℕ → Offset

-- The bytes and the offset that `read` asks its node for, or ERROR_EOF.
unfoldable pub read : ℕ → FileDescription → Option (ℕ × ℕ)
read size f =
    if ltb f.node_size ((f.current_position + size) % 2 ^ 32) && not (f.node_size == 0)
    then none
    else some (size, f.current_position)

unfoldable pub write : ℕ → FileDescription → Option (ℕ × ℕ)
write size f =
    if ltb f.node_size ((f.current_position + size) % 2 ^ 32) && not (f.node_size == 0)
    then none
    else some (size, (f.current_position + size) % 2 ^ 32)

-- `none` is ERROR_EOF.
unfoldable pub seek : Offset → SeekOrigin → FileDescription → Option FileDescription
seek (forward n) seek_set f =
    if ltb f.node_size n then none else some (record f { current_position = n })
seek (backward n) seek_set f = none
seek (forward n) seek_current f =
    if not (n == 0) && ltb ((f.node_size + 2 ^ 32 - f.current_position) % 2 ^ 32) n
    then none
    else some (record f { current_position = (n + f.current_position) % 2 ^ 32 })
seek (backward n) seek_current f =
    if ltb f.current_position (suc n)
    then none
    else some (record f { current_position = (f.current_position + 2 ^ 32 - suc n) % 2 ^ 32 })
seek (forward n) seek_end f =
    if not (n == 0) then none else some (record f { current_position = f.node_size })
seek (backward n) seek_end f =
    if ltb f.node_size (suc n)
    then none
    else some (record f { current_position = (f.node_size + 2 ^ 32 - suc n) % 2 ^ 32 })

-- Where an offset points, from an origin.
abbrev pub target : Offset → SeekOrigin → FileDescription → ℕ
target (forward n) seek_set f = n
target (forward n) seek_current f = f.current_position + n
target (forward n) seek_end f = f.node_size + n
target (backward n) seek_set f = 0
target (backward n) seek_current f = f.current_position - suc n
target (backward n) seek_end f = f.node_size - suc n

-- From a position inside a file of fewer than 2 ^ 32 bytes, a `seek` that succeeds goes where the offset points, and the position
-- that it leaves lies in the file.
pub seek_lem :
    (o : Offset) (from : SeekOrigin) (f f' : FileDescription)
    → f.node_size < 2 ^ 32
    → f.current_position ≤ f.node_size
    → seek o from f ≡ some f'
    → (f'.current_position ≤ f'.node_size)
      × (f'.node_size ≡ f.node_size)
      × (f'.current_position ≡ target o from f)
unfolding seek
seek_lem (forward n) seek_set f f' small inside ran = ground arith
seek_lem (backward n) seek_set f f' small inside ran = cc
seek_lem (forward n) seek_current f f' small inside ran = ground arith
seek_lem (backward n) seek_current f f' small inside ran = ground arith
seek_lem (forward n) seek_end f f' small inside ran = ground arith
seek_lem (backward n) seek_end f f' small inside ran = ground arith
