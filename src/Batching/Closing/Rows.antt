-- ===== src/Batching/Closing/Rows.antt =====
-- The announcements of a batch's rows, one row at a time: the order of the rows is the server's.
use mathlib.Core.List.{Perm, Permᴰ, Perm-prop}
use mathlib.Core.List.Perm
use mathlib.Core.Logic.{∥∥₁_elim}
use mathlib.Core.Option.{some-injective, none-ne-some}
use mathlib.Core.Path.{subst, subst₂}
use content_publishing_servi.Common.{String, Option, none, some, List, [], ◌∷◌, ◌≡◌, refl, ◌∙◌, ap}
use content_publishing_servi.Services.Codec.{Codec}
use content_publishing_servi.Dsnp.{Announcement}
use content_publishing_servi.Batching.{parse_rows, cons_row}

abbrev cons_read : Option Announcement → List Announcement → List Announcement
cons_read none rest = rest
cons_read (some a) rest = a ∷ rest

abbrev cons_unread : Option Announcement → String → List String → List String
cons_unread none row rest = row ∷ rest
cons_unread (some a) row rest = rest

module _ (row_json : Codec Announcement) where
  -- The announcements of the rows that are read, whatever the other rows are
  abbrev pub read_rows : List (String × String) → List Announcement
  read_rows [] = []
  read_rows ((job_id, row) ∷ rest) = cons_read (row_json.decode row) (read_rows rest)

  -- The texts of the other rows
  abbrev pub unread_rows : List (String × String) → List String
  unread_rows [] = []
  unread_rows ((job_id, row) ∷ rest) = cons_unread (row_json.decode row) row (unread_rows rest)

  cons_row-some :
      (row : String) (a : Option Announcement) (o : Option (List Announcement))
      (read : List Announcement) (rest : List Announcement) (others : List String)
      → ((more : List Announcement) → o ≡ some more → (rest ≡ more) × (others ≡ []))
      → cons_row a o ≡ some read
      → (cons_read a rest ≡ read) × (cons_unread a row others ≡ [])
  cons_row-some row none o read rest others h e = absurd (none-ne-some read e)
  cons_row-some row (some a) none read rest others h e = absurd (none-ne-some read e)
  cons_row-some row (some a) (some more) read rest others h e =
      let (same, all_read) = h more refl in
      (ap (λ xs. a ∷ xs) same ∙ some-injective _ _ e, all_read)

  -- Where all rows are read, the two ways to read them agree.
  pub parse_rows-read_rows :
      (rows : List (String × String)) (read : List Announcement)
      → parse_rows row_json rows ≡ some read
      → (read_rows rows ≡ read) × (unread_rows rows ≡ [])
  unfolding parse_rows
  parse_rows-read_rows [] read e = (some-injective _ _ e, refl)
  parse_rows-read_rows ((job_id, row) ∷ rest) read e =
      cons_row-some row (row_json.decode row) (parse_rows row_json rest) read (read_rows rest)
        (unread_rows rest) (parse_rows-read_rows rest) e

  cons_read-perm :
      (a : Option Announcement) (xs ys : List Announcement)
      → Perm xs ys
      → Perm (cons_read a xs) (cons_read a ys)
  cons_read-perm none xs ys p = p
  cons_read-perm (some a) xs ys p = Perm.cons a p

  swap_read :
      (a b : Option Announcement) (xs : List Announcement)
      → Perm (cons_read a (cons_read b xs)) (cons_read b (cons_read a xs))
  swap_read none b xs = Perm.refl _
  swap_read (some a) none xs = Perm.refl _
  swap_read (some a) (some b) xs = Perm.swap b a xs

  permᴰ-read_rows :
      {xs ys : List (String × String)} → Permᴰ xs ys → Perm (read_rows xs) (read_rows ys)
  permᴰ-read_rows Permᴰ.nil = Perm.nil
  permᴰ-read_rows (Permᴰ.cons {a = a} {l₁ = xs} {l₂ = ys} e d) =
      subst (λ c. Perm (read_rows (a ∷ xs)) (read_rows (c ∷ ys))) e
        (cons_read-perm (row_json.decode a.1) _ _ (permᴰ-read_rows d))
  permᴰ-read_rows (Permᴰ.swap {a = a} {b = b} {l = xs} e f) =
      subst₂ (λ v w. Perm (read_rows (a ∷ b ∷ xs)) (read_rows (v ∷ w ∷ xs))) f e
        (swap_read (row_json.decode a.1) (row_json.decode b.1) (read_rows xs))
  permᴰ-read_rows (Permᴰ.trans d e) = Perm.trans (permᴰ-read_rows d) (permᴰ-read_rows e)

  -- Rows in another order hold the same announcements in another order.
  pub read_rows-perm :
      (xs ys : List (String × String)) → Perm xs ys → Perm (read_rows xs) (read_rows ys)
  read_rows-perm xs ys p = ∥∥₁_elim p Perm-prop permᴰ-read_rows
