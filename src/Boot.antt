-- ===== src/Boot.antt =====
-- src/main.c: the count of a directory's files, and the part of kernel_main that sets the memory up and
-- loads the initial ramdisk. What it prints is left out, and so are the devices, whose drivers it starts.
pub mod Count
pub mod First
pub mod Leftover
mod Tests
use studix.Base.{
  ℕ, zero, suc, ◌+◌, Result, ok, stop, undefined, fuel, ◌>>=◌, ◌>>◌, assert, ltb, ◌==◌,
  if◌then◌else◌, add32,
}
use studix.Memory.{Memory, load32}
use studix.Kernel.{Kernel}
use studix.Kmalloc.{HeapAlloc, kmalloc}
use studix.Alloc.{free}
use studix.InitPaging.{init_paging}
use studix.Vfs.{ReadDirFn, FindDirFn, read_dir_node, find_dir_node, file_node}
use studix.Vfs.FsNode
use studix.Initrd.{Initrd, Linked, memory, initrd_read_dir, initrd_find_dir, init_initrd}

module _ (S : Type 0) (mem : S → Memory) (call_read_dir : ℕ → ReadDirFn S mem)
    (call_find_dir : ℕ → FindDirFn S mem) where
  -- The loop, from entry i on. The name of an entry stands at its start.
  unfoldable pub file_count_loop : (f root i count : ℕ) → S → Result (S × ℕ)
  file_count_loop zero root i count s = stop fuel
  file_count_loop (suc f) root i count s =
      let rest = λ (count' : ℕ) (s' : S). file_count_loop f root (add32 i 1) count' s' in
      do
        (s1, dir_entry) ← read_dir_node S mem call_read_dir root i s
        if dir_entry == 0 then ok (s1, count) else do
          (s2, node) ← find_dir_node S mem call_find_dir root dir_entry s1
          if node == 0
              then stop undefined
              else rest
                  (if load32 (mem s2) (FsNode.type node) == file_node then add32 count 1 else count)
                  s2

  unfoldable pub file_count : (f root : ℕ) → S → Result (S × ℕ)
  unfolding file_count_loop
  file_count f root s = file_count_loop f root 0 0 s

-- What kernel_main tries out at its end; kfree is free of the heap.
unfoldable pub try_allocator : HeapAlloc → Kernel → Result Kernel
try_allocator alloc k = do
  (k1, a) ← kmalloc alloc k 8
  (k2, b) ← kmalloc alloc k1 8
  k3 ← free k2 b
  k4 ← free k3 a
  (k5, c) ← kmalloc alloc k4 12
  assert (a == c)
  ok k5

-- Running the functions of a node of the ramdisk.
abbrev pub call_read_dir : (f : ℕ) → Linked → ℕ → ReadDirFn Initrd memory
call_read_dir f linked fn =
    if fn == linked.initrd_read_dir_fn then initrd_read_dir f linked else λ node index s.
    stop undefined

abbrev pub call_find_dir : (f : ℕ) → Linked → ℕ → FindDirFn Initrd memory
call_find_dir f linked fn =
    if fn == linked.initrd_find_dir_fn
    then (λ node name s. initrd_find_dir f linked node name s >>= λ found. ok (s, found))
    else λ node name s. stop undefined

-- The fields of a Multiboot_info.
abbrev pub module_count : ℕ → ℕ
module_count multiboot = multiboot + 20

abbrev pub modules_addr : ℕ → ℕ
modules_addr multiboot = multiboot + 24

-- The placement allocator starts behind the ramdisk. The result is the root, and the number of files.
unfoldable pub load_ramdisk :
    (f : ℕ) → HeapAlloc → Linked → (multiboot : ℕ) → Initrd → Result (Initrd × ℕ × ℕ)
unfolding init_paging init_initrd file_count
load_ramdisk f alloc linked multiboot s = do
  assert (ltb 0 (load32 (memory s) (module_count multiboot)))
  let modules = load32 (memory s) (modules_addr multiboot)
  let initrd_addr = load32 (memory s) modules
  let initrd_end = load32 (memory s) (add32 modules 4)
  k ← init_paging alloc f (record (s.kernel) { placement_addr = initrd_end })
  (s', root) ← init_initrd f alloc linked initrd_addr (record s { kernel = k })
  (s'', count) ←
      file_count Initrd memory (call_read_dir f linked) (call_find_dir f linked) f root s'
  ok (s'', root, count)
