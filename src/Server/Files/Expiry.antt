-- ===== src/Server/Files/Expiry.antt =====
-- The clean-up of expired files of server/files.py.
use chat_terminal.Common.{
  ℕ, suc, ◌+◌, String, ◌≡◌, refl, sym, subst, ap, ◌∙◌, Bool, true, false, not, ◌&&◌, Option, List,
  [], ◌∷◌, arith, string_eq, eq_iff, ◌==◌, exists_row, where_rows, length, Bool-cases, inl, inr,
}
use chat_terminal.Common.Dict.{Dict, erase, lookup-erase}
use chat_terminal.Server.World.{World, Env, File, Chunk, find_row}
use chat_terminal.Server.Files.{
  Bytes, get_file, dir_of, get_chunks, is_expired, get_expired_files, delete_file_data, delete_all,
  cleanup_expired,
}

abbrev pub names : String → List File → Bool
names id files = exists_row (λ f. f.id == id) files

-- Every expired row of `rows` is named in `files`.
abbrev Covers : ℕ → List File → List File → Type 0
Covers now files [] = Unit
Covers now files (f ∷ fs) =
    (is_expired now f ≡ true → names f.id files ≡ true) × Covers now files fs

Covers-cons :
    (now : ℕ) (g : File) (files rows : List File)
    → Covers now files rows
    → Covers now (g ∷ files) rows
Covers-cons now g files [] c = tt
Covers-cons now g files (f ∷ fs) (h, c) = ((λ e. ground (arith, h e)), Covers-cons now g files fs c)

Covers-expired : (now : ℕ) (rows : List File) → Covers now (where_rows (is_expired now) rows) rows
Covers-expired now [] = tt
Covers-expired now (f ∷ fs) =
    let rest = where_rows (is_expired now) fs in
    elim (Bool-cases (is_expired now f)) [
      | inl e ↦
          let q : where_rows (is_expired now) (f ∷ fs) ≡ f ∷ rest = rw e refl in
          subst (λ es. Covers now es (f ∷ fs)) (sym q)
            (
              (λ _. ground (arith, eq_iff f.id f.id)),
              Covers-cons now f rest fs (Covers-expired now fs),
            )
      | inr e ↦
          let q : where_rows (is_expired now) (f ∷ fs) ≡ rest = rw e refl in
          subst (λ es. Covers now es (f ∷ fs)) (sym q) ((λ h. cc), Covers-expired now fs)
    ]

where-where :
    {A : Type 0} (p q : A → Bool) (rows : List A)
    → where_rows p (where_rows q rows) ≡ where_rows (λ r. q r && p r) rows
where-where p q [] = refl
where-where p q (r ∷ rs) = ground (arith, where-where p q rs)

where-ext :
    {A : Type 0} (p q : A → Bool) (rows : List A)
    → ((r : A) → p r ≡ q r)
    → where_rows p rows ≡ where_rows q rows
where-ext p q [] h = refl
where-ext p q (r ∷ rs) h = ground (arith, h r, where-ext p q rs h)

where-true : {A : Type 0} (rows : List A) → rows ≡ where_rows (λ _. true) rows
where-true [] = refl
where-true (r ∷ rs) = ap (λ t. r ∷ t) (where-true rs)

delete_all_files :
    (files : List File) (n : ℕ) (w : World)
    → (delete_all files n w).1.files ≡ where_rows (λ f. not (names f.id files)) w.files
unfolding delete_all delete_file_data
delete_all_files [] n w = where-true w.files
delete_all_files (g ∷ gs) n w =
    delete_all_files gs (suc n) (delete_file_data g.id w)
    ∙ where-where (λ f. not (names f.id gs)) (λ f. not (f.id == g.id)) w.files
    ∙ where-ext (λ f. not (f.id == g.id) && not (names f.id gs)) (λ f. not (names f.id (g ∷ gs)))
        w.files (λ f. ground (arith, eq_iff f.id g.id, eq_iff g.id f.id))

delete_all_count :
    (files : List File) (n : ℕ) (w : World) → (delete_all files n w).0 ≡ n + length files
unfolding delete_all
delete_all_count [] n w = omega arith
delete_all_count (g ∷ gs) n w = omega (arith, delete_all_count gs (suc n) (delete_file_data g.id w))

where-covered :
    (now : ℕ) (files rows : List File)
    → Covers now files rows
    → where_rows (is_expired now) (where_rows (λ f. not (names f.id files)) rows) ≡ []
where-covered now files [] c = refl
where-covered now files (f ∷ fs) (h, c) = elim (Bool-cases (names f.id files)) [
  | inl e ↦ rw e (where-covered now files fs c)
  | inr e ↦ elim (Bool-cases (is_expired now f)) [
    | inl x ↦ let p = h x in cc
    | inr x ↦ rw (e, x) (where-covered now files fs c)
  ]
]

-- After the clean-up no expired file is left, and its result is the number of the files that had
-- expired.
pub cleanup_expired_lem :
    (env : Env) (w : World)
    → (get_expired_files env.now (cleanup_expired env w).1 ≡ [])
      × ((cleanup_expired env w).0 ≡ length (get_expired_files env.now w))
unfolding cleanup_expired get_expired_files
cleanup_expired_lem env w =
    let expired = where_rows (is_expired env.now) w.files in
    (
      rw (delete_all_files expired 0 w)
          (where-covered env.now expired w.files (Covers-expired env.now w.files)),
      delete_all_count expired 0 w ∙ omega arith,
    )

module _ (id : String) where
  -- What the users of one file can see of it
  abbrev pub View : Type 0
  View = Option File × Dict ℕ Bytes × List Chunk

  abbrev pub view : World → View
  view w = (get_file id w, dir_of w.disk id, get_chunks id w)

  find-other :
      (g : String) (files : List File)
      → (g == id) ≡ false
      → find_row (λ f. f.id == id) (where_rows (λ f. not (f.id == g)) files)
        ≡ find_row (λ f. f.id == id) files
  find-other g [] n = refl
  find-other g (f ∷ fs) n =
      ground (arith, find-other g fs n, eq_iff f.id g, eq_iff f.id id, eq_iff g id)

  chunks-other :
      (g : String) (chunks : List Chunk)
      → (g == id) ≡ false
      → where_rows (λ c. c.file_id == id) (where_rows (λ c. not (c.file_id == g)) chunks)
        ≡ where_rows (λ c. c.file_id == id) chunks
  chunks-other g [] n = refl
  chunks-other g (c ∷ cs) n =
      ground (arith, chunks-other g cs n, eq_iff c.file_id g, eq_iff c.file_id id, eq_iff g id)

  dir-other :
      (g : String) (disk : Dict String (Dict ℕ Bytes))
      → (g == id) ≡ false
      → dir_of (erase g disk) id ≡ dir_of disk id
  dir-other g disk n = ground (arith, lookup-erase g id disk, n)

  view-delete : (g : String) (w : World) → (g == id) ≡ false → view (delete_file_data g w) ≡ view w
  unfolding delete_file_data get_file get_chunks
  view-delete g w n =
      rw (find-other g w.files n, dir-other g w.disk n, chunks-other g w.chunks n) refl

  view-delete_all :
      (files : List File) (n : ℕ) (w : World)
      → names id files ≡ false
      → view (delete_all files n w).1 ≡ view w
  unfolding delete_all
  view-delete_all [] n w h = refl
  view-delete_all (g ∷ gs) n w h =
      view-delete_all gs (suc n) (delete_file_data g.id w) (ground (arith, h))
      ∙ view-delete g.id w (ground (arith, h))

  -- The clean-up leaves a file alone whose id is not that of an expired row: its metadata, its chunk
  -- rows and its data are as before.
  pub cleanup_expired-keeps :
      (env : Env) (w : World)
      → names id (get_expired_files env.now w) ≡ false
      → view (cleanup_expired env w).1 ≡ view w
  unfolding cleanup_expired
  cleanup_expired-keeps env w h = view-delete_all (get_expired_files env.now w) 0 w h
