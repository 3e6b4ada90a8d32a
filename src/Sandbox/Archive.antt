-- ===== src/Sandbox/Archive.antt =====
-- `tarDir` of internal/sandbox/docker.go: the archive of a directory, for what `WalkDir` finds there.
-- A tar writer of archive/tar pads a file to blocks of 512 bytes before the next header, and `Close`
-- pads the last one and writes two blocks of zeros. `header` makes the blocks before a file.
pub mod Whole
use iicpc_distributed_benchm.Base.{
  ℕ, ◌+◌, ◌-◌, ◌%◌, ◌<◌, ◌≡◌, refl, sym, ap, ◌∙◌, ltb, ◌==◌, if◌then◌else◌, List, [], ◌∷◌, ◌++◌,
  append_assoc, append-nil, Bool, Bool-cases, true, false, inl, inr, Option, none, some, Text, text,
  All, Result, done, failed, length, replicate, arith,
}

-- An entry of the walk: the error of the walk; whether it is a directory; its relative path with
-- slashes, its size and its bytes, or the errors of asking for them.
pub record Entry : Type 0 where
  pub walk_error : Option Text
  pub is_dir : Bool
  pub rel : Result Text
  pub size : Result ℕ
  pub contents : Result Text

-- The tar writer: what it has written to the buffer, the bytes that the file lacks, and its padding.
pub record Writer : Type 0 where
  pub out : Text
  pub lacking : ℕ
  pub padding : ℕ

abbrev pub zeros : ℕ → Text
zeros n = replicate n 0

abbrev pub padding_of : ℕ → ℕ
padding_of size = (512 - size % 512) % 512

abbrev pub then_do : {A B : Type 0} → Result A → (A → Result B) → Result B
then_do (failed e) k = failed e
then_do (done a) k = k a

module _ (header : Text → ℕ → Result Text) where
  -- `WriteHeader`, which refuses while the file before is not whole.
  abbrev pub write_header : Text → ℕ → Writer → Result Writer
  write_header rel size w =
      if ltb 0 w.lacking
      then failed (text "archive/tar: missed writing bytes")
      else then_do (header rel size) (λ blocks. done (record {
        out = w.out ++ (zeros w.padding ++ blocks);
        lacking = size;
        padding = padding_of size;
      }))

  -- `io.Copy` to the writer, which takes no more bytes than the header says.
  abbrev pub copy : Text → Writer → Result Writer
  copy bytes w =
      if ltb w.lacking (length bytes)
      then failed (text "archive/tar: write too long")
      else done (record w { out = w.out ++ bytes; lacking = w.lacking - length bytes })

  abbrev pub add_file : Entry → Writer → Result Writer
  add_file e w = then_do e.rel (λ rel. then_do e.size (λ size.
      then_do (write_header rel size w) (λ w'. then_do e.contents (λ bytes. copy bytes w'))))

  -- What the function does with an entry of the walk.
  abbrev pub add_entry : Option Text → Entry → Writer → Result Writer
  add_entry (some error) e w = failed error
  add_entry none e w = if e.is_dir then done w else add_file e w

  unfoldable pub walk_dir : List Entry → Writer → Result Writer
  walk_dir [] w = done w
  walk_dir (e ∷ es) w = then_do (add_entry e.walk_error e w) (walk_dir es)

  abbrev pub new_writer : Writer
  new_writer = record { out = []; lacking = 0; padding = 0 }

  -- `tarDir`: the bytes of the buffer when the walk has ended.
  unfoldable pub tar_dir : List Entry → Result Text
  tar_dir es = then_do (walk_dir es new_writer) (λ w. done w.out)
