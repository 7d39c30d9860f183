-- ===== src/Initrd/Tests.antt =====
-- A ramdisk of two files, "ab" with five bytes and "c" with none.
use studix.Base.{
  ℕ, ◌+◌, ◌-◌, ◌≡◌, ◌≢◌, ◌⊎◌, refl, arith, List, [], ◌∷◌, ◌==◌, if◌then◌else◌, none, Returns, ok,
  false,
}
use studix.Memory.{Memory, load8, load32}
use studix.Strings.{strcmp}
use studix.Strings.Bytes.{within}
use studix.Strings.Text.{IsText}
use studix.Initrd.{Initrd, Linked, memory, initrd_read, initrd_find_dir, same_name, find_node_loop}
use studix.Initrd.Bytes.{file_start, file_length, available, initrd_read-available}
use studix.Initrd.Lookup.{FirstNamed, Named, initrd_find_dir-FirstNamed}

abbrev image : Memory
image x =
    if x == 1128
    then 100
    else if x == 1132
    then 5
    else if x == 2000
    then b'a'
    else if x == 2001
    then b'b'
    else if x == 2184
    then b'c'
    else if x == 3000
    then b'c'
    else if x == 3100
    then b'd'
    else if x == 3101
    then b'e'
    else if x == 3102
    then b'v'
    else if x == 4001
    then b'x'
    else 0

abbrev loaded : Initrd
loaded = record {
  kernel = record {
    mem = image;
    placement_addr = 8192;
    kheap = false;
    heap = record {
      index = record { array = 0; size = 0; max_size = 0; comparer = none };
      start_addr = 0;
      end_addr = 0;
      max_addr = 0;
      supervisor = false;
      readonly = false;
    };
    kernel_dir = 0;
    curr_dir = 0;
    frames = 0;
    num_frames = 0;
  };
  initrd_start = 999;
  file_headers = 1000;
  initrd_root = 5000;
  initrd_dev = 5184;
  root_nodes = 2000;
  num_root_nodes = 2;
  dir_entry = 4000;
}

abbrev linked : Linked
linked = record {
  dev_text = 3100;
  initrd_text = 3200;
  initrd_read_fn = 1;
  initrd_read_dir_fn = 2;
  initrd_find_dir_fn = 3;
}

ab_start : file_start loaded 2000 ≡ 100
unfolding load32
ab_start = refl

ab_length : file_length loaded 2000 ≡ 5
unfolding load32
ab_length = refl

initrd_read-available_example :
    ((initrd_read 2000 3 10 6000 loaded).1 ≡ available (file_length loaded 2000) 3 10)
    × ((x : ℕ)
        → memory (initrd_read 2000 3 10 6000 loaded).0 x ≡ (
            if within 6000 (available (file_length loaded 2000) 3 10) x
            then load8 image (file_start loaded 2000 + 3 + (x - 6000))
            else image x))
initrd_read-available_example =
    initrd_read-available loaded 2000 3 10 6000 (omega arith) (omega (arith, ab_start, ab_length))
      (omega (arith, ab_start))

abbrev ab : List ℕ
ab = b'a' ∷ b'b' ∷ []

abbrev c : List ℕ
c = b'c' ∷ []

abbrev dev : List ℕ
dev = b'd' ∷ b'e' ∷ b'v' ∷ []

names : Named loaded 0 (ab ∷ c ∷ [])
names = omega arith

c_text : IsText image 3000 c
c_text = omega arith

c_name : IsText image 2184 c
c_name = omega arith

dev_text : IsText image 3100 dev
dev_text = omega arith

initrd_find_dir-FirstNamed_example :
    Returns
      (λ r. (c ≡ dev) × (r ≡ 5184) ⊎ (c ≢ dev) × FirstNamed loaded 0 (ab ∷ c ∷ []) c r)
      (initrd_find_dir 5 linked 5000 3000 loaded)
initrd_find_dir-FirstNamed_example =
    initrd_find_dir-FirstNamed 5 linked loaded (ab ∷ c ∷ []) 3000 c dev refl names c_text dev_text
      (omega arith)

found : initrd_find_dir 5 linked 5000 3000 loaded ≡ ok 2184
unfolding initrd_find_dir same_name find_node_loop strcmp
found = refl
