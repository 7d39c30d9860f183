-- ===== src/Ramdisk/Tests.antt =====
-- An image of two files at 4096, with the nodes at 20480.
use studix.Base.{
  ℕ, ◌+◌, ◌-◌, ◌*◌, ◌≡◌, inl, refl, ap, arith, List, [], ◌∷◌, some, none, true, false, Option,
  Result, ok, stop, Returns,
}
use studix.Initrd.{Initrd, Linked, memory, initrd_read, init_files}
use studix.MakeInitrd.{Output, DirEntry, special, regular, write_initrd}
use studix.MakeInitrd.Writes.{Stands}
use studix.MakeInitrd.Image.{IsRamdisk, write_initrd-IsRamdisk, files_of}
use studix.Ramdisk.RoundTrip.{initrd_read-write_initrd}

abbrev stack : ℕ → ℕ → ℕ
stack position i = position

abbrev entries : List DirEntry
entries =
    regular (b'a' ∷ b'b' ∷ []) (104 ∷ 105 ∷ [])
    ∷ special
    ∷ regular (b'c' ∷ []) (1 ∷ 2 ∷ 3 ∷ [])
    ∷ []

output_of :
    (r : Result (Option Output))
    → Returns (IsRamdisk 4 stack (files_of entries)) r
    → (out : Output) × (r ≡ ok (some out))
output_of (ok (some out)) h = (out, refl)
output_of (ok none) h = absurd h
output_of (stop e) h = absurd h

abbrev image : (out : Output) × (write_initrd 4 stack (some entries) true ≡ ok (some out))
image =
    output_of (write_initrd 4 stack (some entries) true)
      (write_initrd-IsRamdisk 4 stack entries (omega arith, (omega arith, tt)) (omega arith))

abbrev linked : Linked
linked = record {
  dev_text = 3100;
  initrd_text = 3200;
  initrd_read_fn = 1;
  initrd_read_dir_fn = 2;
  initrd_find_dir_fn = 3;
}

abbrev started : Initrd
started = record {
  kernel = record {
    mem = λ x. image.0.bytes (x - 4096);
    placement_addr = 32768;
    kheap = false;
    heap = record {
      index = record { array = 0; size = 0; max_size = 0; comparer = none };
      start_addr = 0;
      end_addr = 0;
      max_addr = 0;
      supervisor = false;
      readonly = false;
    };
    kernel_dir = 0;
    curr_dir = 0;
    frames = 0;
    num_frames = 0;
  };
  initrd_start = 4096;
  file_headers = 4097;
  initrd_root = 2000;
  initrd_dev = 2200;
  root_nodes = 20480;
  num_root_nodes = 2;
  dir_entry = 3000;
}

initrd_read-write_initrd_example :
    Returns
      (λ s'.
        let (s'', n) = initrd_read (20480 + 184 * 1) 0 3 1000 s' in
        (n ≡ 3) × Stands (memory s'') 1000 (1 ∷ 2 ∷ 3 ∷ []))
      (init_files 126 linked 2 0 started)
initrd_read-write_initrd_example =
    initrd_read-write_initrd stack 4096 20480 entries image.0 126 linked started 1 (b'c' ∷ [])
      (1 ∷ 2 ∷ 3 ∷ []) 1000 image.1 (omega arith, (omega arith, tt)) (omega arith) (omega arith)
      (omega arith) (refl, refl, refl)
      (λ x lt. let back : 4096 + x - 4096 ≡ x = omega arith in ap (image.0.bytes) back)
      (omega arith) (omega arith) refl (inl (omega arith))
