-- ===== src/Batch/Listing/Order.antt =====
-- The sort of the entries keeps what is known of them, and orders them by name.
use mathlib.Core.List.{Perm}
use mathlib.Core.List.Perm
use mlops_templates.Prelude.{
  ℕ, suc, ◌+◌, ◌≡◌, refl, true, false, List, [], ◌∷◌, arith, length, All, Bool-cases, inl, inr, ap,
  ◌∙◌,
}
use mlops_templates.Text.{Text}
use mlops_templates.Text.Laws.{str_eq_comm}
use mlops_templates.Batch.BlobPath.{RelativePath}
use mlops_templates.Batch.Listing.{Entry, path_eq, text_leb, insert_entry, sort_entries}

unfoldable pub total_size : List Entry → ℕ
total_size [] = 0
total_size (e ∷ es) = e.size + total_size es

-- Each name is at most every later one.
abbrev pub Sorted : List Entry → Type 0
Sorted [] = Unit
Sorted (e ∷ es) = All (λ f. text_leb e.name f.name ≡ true) es × Sorted es

-- No path is that of a later entry.
abbrev pub Distinct : List Entry → Type 0
Distinct [] = Unit
Distinct (e ∷ es) = All (λ f. path_eq e.path f.path ≡ false) es × Distinct es

text_leb_total : (s t : Text) → text_leb s t ≡ false → text_leb t s ≡ true
unfolding text_leb
text_leb_total [] t h = absurd (ground arith)
text_leb_total (c ∷ s) [] h = refl
text_leb_total (c ∷ s) (d ∷ t) h = ground (arith, text_leb_total s t)

text_leb_trans : (s t u : Text) → text_leb s t ≡ true → text_leb t u ≡ true → text_leb s u ≡ true
unfolding text_leb
text_leb_trans [] t u h k = refl
text_leb_trans (c ∷ s) [] u h k = absurd (ground arith)
text_leb_trans (c ∷ s) (d ∷ t) [] h k = absurd (ground arith)
text_leb_trans (c ∷ s) (d ∷ t) (e ∷ u) h k = ground (arith, text_leb_trans s t u)

pub path_eq_comm : (p q : RelativePath) → path_eq p q ≡ path_eq q p
unfolding path_eq
path_eq_comm [] [] = refl
path_eq_comm [] (q ∷ qs) = refl
path_eq_comm (p ∷ ps) [] = refl
path_eq_comm (p ∷ ps) (q ∷ qs) = ground (arith, str_eq_comm p q, path_eq_comm ps qs)

length-insert_entry : (e : Entry) (es : List Entry) → length (insert_entry e es) ≡ suc (length es)
unfolding insert_entry
length-insert_entry e [] = refl
length-insert_entry e (f ∷ fs) = ground (arith, length-insert_entry e fs)

total_size-insert_entry :
    (e : Entry) (es : List Entry) → total_size (insert_entry e es) ≡ e.size + total_size es
unfolding insert_entry total_size
total_size-insert_entry e [] = refl
total_size-insert_entry e (f ∷ fs) = ground (arith, total_size-insert_entry e fs)

module _ (P : Entry → Type 0) where
  All-insert_entry : (e : Entry) (es : List Entry) → P e → All P es → All P (insert_entry e es)
  unfolding insert_entry
  All-insert_entry e [] h hs = (h, tt)
  All-insert_entry e (f ∷ fs) h hs = elim (Bool-cases (text_leb e.name f.name)) [
    | inl below ↦ rw below (h, hs)
    | inr above ↦ rw above (hs.0, All-insert_entry e fs h hs.1)
  ]

  pub All-sort_entries : (es : List Entry) → All P es → All P (sort_entries es)
  unfolding sort_entries
  All-sort_entries [] h = tt
  All-sort_entries (e ∷ es) h = All-insert_entry e (sort_entries es) h.0 (All-sort_entries es h.1)

  All-map {ℓ} :
      {Q : Entry → Type ℓ} (f : (e : Entry) → P e → Q e) (es : List Entry) → All P es → All Q es
  All-map f [] h = tt
  All-map f (e ∷ es) h = (f e h.0, All-map f es h.1)

insert_entry-Sorted : (e : Entry) (es : List Entry) → Sorted es → Sorted (insert_entry e es)
unfolding insert_entry
insert_entry-Sorted e [] h = (tt, tt)
insert_entry-Sorted e (f ∷ fs) h = elim (Bool-cases (text_leb e.name f.name)) [
  | inl below ↦ rw below (
    (
      below,
      All-map (λ g. text_leb f.name g.name ≡ true)
          (λ g k. text_leb_trans e.name f.name g.name below k) fs h.0,
    ),
    h,
  )
  | inr above ↦ rw above (
    All-insert_entry (λ g. text_leb f.name g.name ≡ true) e fs (text_leb_total e.name f.name above)
        h.0,
    insert_entry-Sorted e fs h.1,
  )
]

pub sort_entries-Sorted : (es : List Entry) → Sorted (sort_entries es)
unfolding sort_entries
sort_entries-Sorted [] = tt
sort_entries-Sorted (e ∷ es) = insert_entry-Sorted e (sort_entries es) (sort_entries-Sorted es)

insert_entry-Distinct :
    (e : Entry) (es : List Entry)
    → All (λ f. path_eq e.path f.path ≡ false) es
    → Distinct es
    → Distinct (insert_entry e es)
unfolding insert_entry
insert_entry-Distinct e [] fresh h = (tt, tt)
insert_entry-Distinct e (f ∷ fs) fresh h = elim (Bool-cases (text_leb e.name f.name)) [
  | inl below ↦ rw below (fresh, h)
  | inr above ↦ rw above (
    All-insert_entry (λ g. path_eq f.path g.path ≡ false) e fs
        (path_eq_comm f.path e.path ∙ fresh.0) h.0,
    insert_entry-Distinct e fs fresh.1 h.1,
  )
]

pub sort_entries-Distinct : (es : List Entry) → Distinct es → Distinct (sort_entries es)
unfolding sort_entries
sort_entries-Distinct [] h = tt
sort_entries-Distinct (e ∷ es) h =
    insert_entry-Distinct e (sort_entries es)
      (All-sort_entries (λ f. path_eq e.path f.path ≡ false) es h.0) (sort_entries-Distinct es h.1)

pub length-sort_entries : (es : List Entry) → length (sort_entries es) ≡ length es
unfolding sort_entries
length-sort_entries [] = refl
length-sort_entries (e ∷ es) =
    length-insert_entry e (sort_entries es) ∙ ap suc (length-sort_entries es)

pub total_size-sort_entries : (es : List Entry) → total_size (sort_entries es) ≡ total_size es
unfolding sort_entries total_size
total_size-sort_entries [] = refl
total_size-sort_entries (e ∷ es) =
    total_size-insert_entry e (sort_entries es) ∙ ap (λ n. e.size + n) (total_size-sort_entries es)

perm-insert_entry : (e : Entry) (es : List Entry) → Perm (insert_entry e es) (e ∷ es)
unfolding insert_entry
perm-insert_entry e [] = Perm.refl (e ∷ [])
perm-insert_entry e (f ∷ fs) = elim (Bool-cases (text_leb e.name f.name)) [
  | inl below ↦ rw below (Perm.refl (e ∷ f ∷ fs))
  | inr above ↦ rw above (Perm.trans (Perm.cons f (perm-insert_entry e fs)) (Perm.swap e f fs))
]

-- The sort loses no entry and adds none.
pub perm-sort_entries : (es : List Entry) → Perm (sort_entries es) es
unfolding sort_entries
perm-sort_entries [] = Perm.refl []
perm-sort_entries (e ∷ es) =
    Perm.trans (perm-insert_entry e (sort_entries es)) (Perm.cons e (perm-sort_entries es))
