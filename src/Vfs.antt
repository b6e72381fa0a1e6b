-- ===== src/Vfs.antt =====
-- The virtual file system, src/vfs.c with include/vfs.h.
--
-- The nodes are a list in the order of their allocation, a pointer to one is its index, and NULL is
-- `none`. A name or path is the text before its end mark. What `kmalloc` answers is an argument, true
-- if it finds room. An EXT2 file system is the record of what src/ext2.c reads from its disk,
-- which Vfs/OnDisk fills. No node has an `open` or a `close`. Printing is left out.
pub mod Lookup
pub mod Create
pub mod Mount
mod Paths
pub mod Children
mod Linked
mod Mounted
pub mod Reading
mod OnDisk
mod Names
mod Tests
mod DiskTests
use kfs.Prelude.{
  ℕ, ◌+◌, ◌-◌, ◌/◌, ◌%◌, Bool, true, false, ◌&&◌, not, Option, none, some, List, [], ◌∷◌, ◌++◌,
  ◌==◌, ltb, leb, length, take, drop, get_or, modify, ℤ, pos, negsuc, if◌then◌else◌,
}
use kfs.Ext2.{Ext2Inode}
use kfs.Ext2.Data.{DirEntry}

pub data VfsFileType : Type 0 where
  unknown regular directory chardev blockdev fifo socket symlink : VfsFileType

-- What a mounted file system answers. `read_dir` has the entries for the callback of `ext2_read_dir`
-- in order, and `none` is a result of -1.
pub record Filesystem : Type 0 where
  pub root_inode : ℕ
  pub read_inode : ℕ → Option Ext2Inode
  pub read_dir : ℕ → List DirEntry
  pub read_inode_data : Ext2Inode → (offset size : ℕ) → Option (List ℕ)

-- What a function pointer of a node is.
pub data Operation : Type 0 where
  null virtual ext2 : Operation

-- `inode` holds a number or the address of the content of a virtual file.
pub data InodeField : Type 0 where
  number : ℕ → InodeField
  file_data : List ℕ → InodeField

pub record Node : Type 0 where
  pub name : List ℕ
  pub size : ℕ
  pub kind : VfsFileType
  pub inode : InodeField
  pub links : ℕ
  pub father : Option ℕ
  pub children : Option ℕ
  pub next_sibling : Option ℕ
  pub uid : ℕ
  pub gid : ℕ
  pub mode : ℕ
  pub fs : Option Filesystem
  pub ext2_inode : Ext2Inode
  pub read : Operation
  pub write : Operation
  pub readdir : Operation
  pub finddir : Operation

pub record MountPoint : Type 0 where
  pub path : List ℕ
  pub node : ℕ
  pub mounted : Filesystem

pub record Vfs : Type 0 where
  pub nodes : List Node
  pub root : Option ℕ
  pub mounts : List MountPoint

abbrev zero_inode : Ext2Inode
zero_inode = record {
  i_mode = 0;
  i_uid = 0;
  i_size = 0;
  i_gid = 0;
  i_links_count = 0;
  i_block = [];
}

abbrev pub zero_node : Node
zero_node = record {
  name = [];
  size = 0;
  kind = unknown;
  inode = number 0;
  links = 0;
  father = none;
  children = none;
  next_sibling = none;
  uid = 0;
  gid = 0;
  mode = 0;
  fs = none;
  ext2_inode = zero_inode;
  read = null;
  write = null;
  readdir = null;
  finddir = null;
}

abbrev pub node_at : Vfs → ℕ → Node
node_at st i = get_or st.nodes i zero_node

abbrev pub change_node : Vfs → ℕ → (Node → Node) → Vfs
change_node st i f = record st { nodes = modify f st.nodes i }

abbrev pub is_directory : VfsFileType → Bool
is_directory directory = true
is_directory _ = false

-- `strcmp(a, b) == 0`
unfoldable pub same_text : List ℕ → List ℕ → Bool
same_text [] [] = true
same_text [] (y ∷ b) = false
same_text (x ∷ a) [] = false
same_text (x ∷ a) (y ∷ b) = (x == y) && same_text a b

-- Modulo 2 ^ 16, as `mode & 0xF000` reads it.
abbrev pub ext2_to_vfs_type : ℕ → VfsFileType
ext2_to_vfs_type mode =
    let format = mode / 0x1000 % 16 in
    if format == 8
    then regular
    else if format == 4
    then directory
    else if format == 2
    then chardev
    else if format == 6
    then blockdev
    else if format == 1
    then fifo
    else if format == 12
    then socket
    else if format == 10
    then symlink
    else unknown

-- `buffer` tells whether it is not NULL. The outer `none` is a copy past the end of the content, else
-- the result comes with the bytes that the buffer starts with.
unfoldable pub vfs_virtual_read : Node → (offset size : ℕ) → Bool → Option (ℤ × List ℕ)
vfs_virtual_read n offset size buffer = if not buffer then some (negsuc 0, []) else elim n.inode [
  | number i ↦ some (pos 0, [])
  | file_data content ↦
      let last = length content - offset in
      let to_read = if ltb (length content) ((offset + size) % 0x100000000) then last else size in
      let stored = drop offset (content ++ (0 ∷ [])) in
      if leb (length content) offset
      then some (pos 0, [])
      else if ltb (length stored) to_read
      then none
      else some (pos to_read, take to_read stored)
]

unfoldable pub vfs_ext2_read : Node → (offset size : ℕ) → Option (ℤ × List ℕ)
vfs_ext2_read n offset size = elim n.fs [
  | none ↦ some (negsuc 0, [])
  | some f ↦ elim (f.read_inode_data n.ext2_inode offset size) [
    | none ↦ some (negsuc 0, [])
    | some bytes ↦ some (pos (length bytes), bytes)
  ]
]

unfoldable pub vfs_read : Vfs → Option ℕ → (offset size : ℕ) → Bool → Option (ℤ × List ℕ)
unfolding vfs_virtual_read vfs_ext2_read
vfs_read st none offset size buffer = some (negsuc 0, [])
vfs_read st (some i) offset size buffer =
    if not buffer then some (negsuc 0, []) else elim (node_at st i).read [
      | null ↦ some (negsuc 0, [])
      | virtual ↦ vfs_virtual_read (node_at st i) offset size buffer
      | ext2 ↦ vfs_ext2_read (node_at st i) offset size
    ]

-- The one `write` there is refuses.
abbrev pub vfs_write : Vfs → Option ℕ → ℤ
vfs_write st n = negsuc 0

abbrev pub vfs_open : Option ℕ → ℤ
vfs_open none = negsuc 0
vfs_open (some i) = pos 0

abbrev pub vfs_get_root : Vfs → Option ℕ
vfs_get_root st = st.root
