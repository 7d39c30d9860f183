-- ===== src/MakeInitrd.antt =====
-- src/tools/make_initrd.c: the tool that writes the image of the ramdisk. It runs on the machine that
-- builds the kernel, where size_t has `w` bytes. The output is a file with a position; what the
-- directory holds, and whether the calls of the operating system succeed, is an argument. The messages,
-- and the usage that main prints, are left out.
pub mod Writes
pub mod Image
pub mod Layout
mod Tests
use studix.Base.{
  ℕ, zero, suc, ◌+◌, ◌-◌, ◌*◌, ◌/◌, ◌%◌, Bool, true, false, List, [], ◌∷◌, ◌++◌, length, Option,
  none, some, Result, ok, stop, undefined, ◌>>=◌, leb, ltb, ◌==◌, if◌then◌else◌, u8,
}
use studix.Vfs.{max_name_length}
use studix.Initrd.{max_files}

-- A file that is written: its bytes, 0 where nothing was written, and the position.
pub record Output : Type 0 where
  pub bytes : ℕ → ℕ
  pub position : ℕ

abbrev pub seek : Output → ℕ → Output
seek out position = record out { position = position }

abbrev pub put_byte : Output → ℕ → Output
put_byte out x = record {
  bytes = λ i. if i == out.position then u8 x else out.bytes i;
  position = out.position + 1;
}

-- write(fd, xs, length xs)
unfoldable pub write : Output → List ℕ → Output
write out [] = out
write out (x ∷ xs) = write (put_byte out x) xs

-- A size_t in memory, least significant byte first.
unfoldable pub size_bytes : (w n : ℕ) → List ℕ
size_bytes zero n = []
size_bytes (suc w) n = n % 256 ∷ size_bytes w (n / 256)

-- n bytes that were on the stack, from place i on.
unfoldable pub stack_bytes : (ℕ → ℕ) → (n i : ℕ) → List ℕ
stack_bytes stack zero i = []
stack_bytes stack (suc n) i = stack i ∷ stack_bytes stack n (i + 1)

-- The File_header in memory: behind the name and its terminator stands what was there.
unfoldable pub header_bytes :
    (w : ℕ) → (stack : ℕ → ℕ) → (name : List ℕ) → (start length : ℕ) → List ℕ
unfolding size_bytes stack_bytes
header_bytes w stack name start size =
    name
    ++ 0 ∷ stack_bytes stack (max_name_length - length name - 1) 0
    ++ size_bytes w start
    ++ size_bytes w size

abbrev pub header_size : ℕ → ℕ
header_size w = max_name_length + 2 * w

-- The struct is a local variable: what stood in its place on the stack can be another thing at each
-- call, so `stack` has it for each place in the output that a header goes to. `contents` is what read gives of the file; a name that does not fit into the header has no meaning.
unfoldable pub write_file :
    (w : ℕ) → (stack : ℕ → ℕ → ℕ) → Output → (name contents : List ℕ) → (start : ℕ) → Result Output
unfolding header_bytes write
write_file w stack out name contents start =
    let headed = write out (header_bytes w (stack out.position) name start (length contents)) in
    let filled = write (seek headed start) contents in
    if leb max_name_length (length name) then stop undefined else ok (seek filled headed.position)

-- What readdir, open and fstat say of an entry of the directory.
pub data DirEntry : Type 0 where
  unopened : DirEntry
  unknown : DirEntry
  special : DirEntry
  regular : (name contents : List ℕ) → DirEntry

-- The loop over the directory; `none` is the return of 1.
unfoldable pub files_loop :
    (w : ℕ)
    → (stack : ℕ → ℕ → ℕ) → List DirEntry
    → Output
    → (end num_files : ℕ) → Result (Option (Output × ℕ))
unfolding write_file
files_loop w stack [] out end num_files = ok (some (out, num_files))
files_loop w stack (unopened ∷ entries) out end num_files = ok none
files_loop w stack (unknown ∷ entries) out end num_files = ok none
files_loop w stack (special ∷ entries) out end num_files =
    files_loop w stack entries out end num_files
files_loop w stack (regular name contents ∷ entries) out end num_files =
    write_file w stack out name contents end >>= λ out'.
    files_loop w stack entries out' (end + length contents) (num_files + 1)

-- The number of files goes to the first byte.
unfoldable pub finish : Option (Output × ℕ) → Option Output
unfolding write
finish none = none
finish (some (out, num_files)) = some (write (seek out 0) (u8 num_files ∷ []))

-- `none` for the directory or the output is a failure of opendir or creat.
unfoldable pub write_initrd :
    (w : ℕ)
    → (stack : ℕ → ℕ → ℕ) → Option (List DirEntry)
    → (created : Bool) → Result (Option Output)
unfolding files_loop finish
write_initrd w stack none created = ok none
write_initrd w stack (some entries) false = ok none
write_initrd w stack (some entries) true = do
  let start : Output = record { bytes = λ i. 0; position = 1 }
  written ← files_loop w stack entries start (1 + header_size w * max_files) 0
  ok (finish written)
