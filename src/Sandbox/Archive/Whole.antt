-- ===== src/Sandbox/Archive/Whole.antt =====
-- What the archive of `tarDir` lacks.
use iicpc_distributed_benchm.Base.{
  ℕ, ◌-◌, ◌≡◌, refl, sym, ap, ◌∙◌, ltb, List, [], ◌∷◌, ◌++◌, append_assoc, append-nil, true, false,
  none, some, Text, Result, done, failed, length, arith,
}
use iicpc_distributed_benchm.Sandbox.Archive.{
  Entry, Writer, zeros, padding_of, then_do, add_entry, walk_dir, new_writer, tar_dir,
}

module _ (header : Text → ℕ → Result Text) where
  -- An entry that is a file with these header blocks and bytes.
  pub record IsFile (e : Entry) (rel blocks bytes : Text) : Type 0 where
    pub walked : e.walk_error ≡ none
    pub no_dir : e.is_dir ≡ false
    pub has_rel : e.rel ≡ done rel
    pub has_size : e.size ≡ done (length bytes)
    pub has_header : header rel (length bytes) ≡ done blocks
    pub has_contents : e.contents ≡ done bytes

  -- Entries without an error, and the header blocks and the bytes of their files.
  pub data Walked : List Entry → List (Text × Text) → Type 0 where
    nothing : Walked [] []
    directory :
        {e : Entry} {es : List Entry} {fs : List (Text × Text)}
        → e.walk_error ≡ none
        → e.is_dir ≡ true
        → Walked es fs
        → Walked (e ∷ es) fs
    file :
        {e : Entry} {es : List Entry} {rel blocks bytes : Text} {fs : List (Text × Text)}
        → IsFile e rel blocks bytes
        → Walked es fs
        → Walked (e ∷ es) ((blocks, bytes) ∷ fs)

  -- An entry at which the walk ends.
  pub data Fails (e : Entry) (error : Text) : Type 0 where
    in_walk : e.walk_error ≡ some error → Fails e error
    in_rel : e.walk_error ≡ none → e.is_dir ≡ false → e.rel ≡ failed error → Fails e error
    in_size :
        {rel : Text}
        → e.walk_error ≡ none
        → e.is_dir ≡ false
        → e.rel ≡ done rel
        → e.size ≡ failed error
        → Fails e error
    in_contents :
        {rel blocks : Text} {size : ℕ}
        → e.walk_error ≡ none
        → e.is_dir ≡ false
        → e.rel ≡ done rel
        → e.size ≡ done size
        → header rel size ≡ done blocks
        → e.contents ≡ failed error
        → Fails e error

  -- The archive of files, each padded, with two blocks of zeros at the end.
  abbrev pub archive : List (Text × Text) → Text
  archive [] = zeros 1024
  archive ((blocks, bytes) ∷ fs) =
      blocks ++ (bytes ++ (zeros (padding_of (length bytes)) ++ archive fs))

  abbrev pub last_padding : ℕ → List (Text × Text) → ℕ
  last_padding n [] = n
  last_padding n ((blocks, bytes) ∷ fs) = last_padding (padding_of (length bytes)) fs

  -- What the writer writes of the files, after a file that lacks its padding.
  abbrev body : ℕ → List (Text × Text) → Text
  body n [] = []
  body n ((blocks, bytes) ∷ fs) =
      zeros n ++ (blocks ++ (bytes ++ body (padding_of (length bytes)) fs))

  abbrev writer : Text → ℕ → Writer
  writer out n = record { out = out; lacking = 0; padding = n }

  add_entry-file :
      (e : Entry) (rel blocks bytes out : Text) (n : ℕ)
      → IsFile e rel blocks bytes
      → add_entry header e.walk_error e (writer out n)
        ≡ done (writer ((out ++ (zeros n ++ blocks)) ++ bytes) (padding_of (length bytes)))
  add_entry-file e rel blocks bytes out n h =
      let fits : ltb (length bytes) (length bytes) ≡ false = ground arith in
      let all_there : length bytes - length bytes ≡ 0 = omega arith in
      rw (h.walked, h.no_dir, h.has_rel, h.has_size, h.has_header, h.has_contents, fits, all_there)
        refl

  walk_dir-Walked :
      {es : List Entry} {fs : List (Text × Text)} (out : Text) (n : ℕ) (more : List Entry)
      → Walked es fs
      → walk_dir header (es ++ more) (writer out n)
        ≡ walk_dir header more (writer (out ++ body n fs) (last_padding n fs))
  unfolding walk_dir
  walk_dir-Walked out n more nothing =
      ap (λ o. walk_dir header more (writer o n)) (sym (append-nil out))
  walk_dir-Walked out n more (directory walked dir rest) =
      rw (walked, dir) (walk_dir-Walked out n more rest)
  walk_dir-Walked {es = e ∷ es} {fs = (blocks, bytes) ∷ fs} out n more (file {rel = rel} h rest) =
      ap (λ r. then_do r (walk_dir header (es ++ more))) (add_entry-file e rel blocks bytes out n h)
      ∙ (walk_dir-Walked ((out ++ (zeros n ++ blocks)) ++ bytes) (padding_of (length bytes)) more
            rest
          ∙ ap (λ o. walk_dir header more (writer o (last_padding (padding_of (length bytes)) fs)))
              (append_assoc (out ++ (zeros n ++ blocks)) bytes (body (padding_of (length bytes)) fs)
                ∙ (append_assoc out (zeros n ++ blocks)
                      (bytes ++ body (padding_of (length bytes)) fs)
                    ∙ ap (λ t. out ++ t)
                        (append_assoc (zeros n) blocks
                          (bytes ++ body (padding_of (length bytes)) fs)))))

  body-archive :
      (n : ℕ) (fs : List (Text × Text))
      → body n fs ++ (zeros (last_padding n fs) ++ zeros 1024) ≡ zeros n ++ archive fs
  body-archive n [] = refl
  body-archive n ((blocks, bytes) ∷ fs) =
      let p = padding_of (length bytes) in
      let end = zeros (last_padding p fs) ++ zeros 1024 in
      append_assoc (zeros n) (blocks ++ (bytes ++ body p fs)) end
      ∙ ap (λ t. zeros n ++ t)
          (append_assoc blocks (bytes ++ body p fs) end
            ∙ ap (λ t. blocks ++ t)
                (append_assoc bytes (body p fs) end ∙ ap (λ t. bytes ++ t) (body-archive p fs)))

  add_entry-Fails :
      (e : Entry) (error out : Text) (n : ℕ)
      → Fails e error
      → add_entry header e.walk_error e (writer out n) ≡ failed error
  add_entry-Fails e error out n (in_walk w) = rw w refl
  add_entry-Fails e error out n (in_rel w d r) = rw (w, d, r) refl
  add_entry-Fails e error out n (in_size w d r s) = rw (w, d, r, s) refl
  add_entry-Fails e error out n (in_contents w d r s h c) = rw (w, d, r, s, h, c) refl

  -- Of a walk whose entries are directories and files that are read whole: `tarDir` returns the header
  -- and the bytes of each file, in the order of the walk, but without the padding of the last file and
  -- without the end of the archive. At the first entry that cannot be walked or read it returns its
  -- error, whatever comes after.
  pub tar_dir-archive :
      (es : List Entry) (fs : List (Text × Text))
      → Walked es fs
      → ((bytes : Text) × (tar_dir header es ≡ done bytes)
          × (bytes ++ (zeros (last_padding 0 fs) ++ zeros 1024) ≡ archive fs))
        × ((e : Entry) (error : Text) (more : List Entry)
            → Fails e error
            → tar_dir header (es ++ e ∷ more) ≡ failed error)
  unfolding tar_dir walk_dir
  tar_dir-archive es fs h = (
    (
      body 0 fs,
      ap (λ es'. then_do (walk_dir header es' (new_writer header)) (λ w. done w.out))
            (sym (append-nil es))
          ∙ ap (λ r. then_do r (λ w. done w.out)) (walk_dir-Walked [] 0 [] h),
      body-archive 0 fs,
    ),
    λ e error more fails.
        ap (λ r. then_do r (λ w. done w.out))
          (walk_dir-Walked [] 0 (e ∷ more) h
            ∙ ap (λ r. then_do r (walk_dir header more))
                (add_entry-Fails e error (body 0 fs) (last_padding 0 fs) fails)),
  )
