-- ===== src/Boot/Tests.antt =====
-- A ramdisk of one file, "xyz", whose root is at 5000.
use studix.Base.{Returns, ◌>>=◌, refl, arith, true, false, [], ◌∷◌, ◌==◌, if◌then◌else◌, none}
use studix.Memory.{Memory, load32, store8, store32}
use studix.Strings.{strcpy, strcmp}
use studix.Vfs.{read_dir_node, find_dir_node}
use studix.Initrd.{
  Initrd, Linked, memory, initrd_read_dir, initrd_find_dir, same_name, find_node_loop,
}
use studix.Boot.{call_read_dir, call_find_dir}
use studix.Boot.Count.{Lists}
use studix.Boot.Leftover.{HasLeftover, kmalloc-leftover}
use studix.Boot.First.{FirstBlock, kmalloc-init_paging}
use studix.Alloc.{alloc}
use studix.Kmalloc.{kmalloc}
use studix.InitPaging.{init_paging}

abbrev image : Memory
image x =
    if x == 2000
    then b'x'
    else if x == 2001
    then b'y'
    else if x == 2002
    then b'z'
    else if x == 2148
    then 1
    else if x == 3100
    then b'd'
    else if x == 3101
    then b'e'
    else if x == 3102
    then b'v'
    else if x == 5148
    then 2
    else if x == 5176
    then 2
    else if x == 5180
    then 3
    else if x == 5332
    then 2
    else 0

abbrev loaded : Initrd
loaded = record {
  kernel = record {
    mem = image;
    placement_addr = 8192;
    kheap = false;
    heap = record {
      index = record { array = 0; size = 0; max_size = 0; comparer = none };
      start_addr = 0;
      end_addr = 0;
      max_addr = 0;
      supervisor = false;
      readonly = false;
    };
    kernel_dir = 0;
    curr_dir = 0;
    frames = 0;
    num_frames = 0;
  };
  initrd_start = 999;
  file_headers = 1000;
  initrd_root = 5000;
  initrd_dev = 5184;
  root_nodes = 2000;
  num_root_nodes = 1;
  dir_entry = 4000;
}

abbrev linked : Linked
linked = record {
  dev_text = 3100;
  initrd_text = 3200;
  initrd_read_fn = 1;
  initrd_read_dir_fn = 2;
  initrd_find_dir_fn = 3;
}

-- The directory of the devices, and the file.
loaded-Lists :
    Lists Initrd memory
      (call_read_dir 9 linked)
      (call_find_dir 9 linked)
      5000
      0
      (false ∷ true ∷ [])
      loaded
unfolding read_dir_node find_dir_node initrd_read_dir initrd_find_dir load32 strcpy store8 store32
    same_name strcmp find_node_loop
loaded-Lists = (omega arith, (omega arith, refl, (omega arith, (omega arith, refl, refl))))

kmalloc-init_paging_example :
    Returns
      (FirstBlock 100)
      (init_paging (alloc 1) 1025 (loaded.kernel) >>= λ k. kmalloc (alloc 1) k 100)
kmalloc-init_paging_example =
    kmalloc-init_paging 1024 0 100 (loaded.kernel) refl (omega arith) (omega arith) (omega arith)

kmalloc-leftover_example :
    Returns
      (HasLeftover (load32 (loaded.kernel.mem) 8) 100)
      (init_paging (alloc 1) 1025 (loaded.kernel) >>= λ k. kmalloc (alloc 1) k 100)
kmalloc-leftover_example =
    kmalloc-leftover 1024 0 100 (loaded.kernel) refl (omega arith) (omega arith) (omega arith)
      (omega arith)
