-- ===== src/Migrate/Pending.antt =====
-- db/migrate.py: the files whose names are not recorded.
use paper_trading_agent.Base.{
  ◌≤◌, ◌≡◌, refl, ap, sym, ◌∙◌, subst, inl, inr, Bool, true, false, not, ◌||◌, List, [], ◌∷◌, ◌++◌,
  map, select, select_hit, select_miss, count_if, All, Text, same_text, same_text_refl, Bool-cases,
  arith,
}
use paper_trading_agent.Numbers.Sorting.{IsSorted}
use paper_trading_agent.Migrate.{Migration, by_name, is_in}

-- The names of different files differ.
abbrev pub NamedOnce : List Migration → Type 0
NamedOnce files = (name : Text) → count_if (λ (f : Migration). same_text name f.name) files ≤ 1

abbrev pub names_of : List Migration → List Text
names_of = map (λ (f : Migration). f.name)

abbrev pub pending : List Text → List Migration → List Migration
pending applied = select (λ (f : Migration). not (is_in f.name applied))

-- None of the names is that of a file.
abbrev pub Fresh : List Text → List Migration → Type 0
Fresh names files = All (λ (f : Migration). is_in f.name names ≡ false) files

pub is_in-append :
    (name : Text) (s t : List Text) → is_in name (s ++ t) ≡ (is_in name s || is_in name t)
is_in-append name [] t = refl
is_in-append name (x ∷ s) t = ground (arith, is_in-append name s t)

none_named :
    (name : Text) (files : List Migration)
    → count_if (λ (f : Migration). same_text name f.name) files ≤ 0
    → Fresh (name ∷ []) files
none_named name [] h = tt
none_named name (f ∷ files) h = elim (Bool-cases (same_text name f.name)) [
  | inl e ↦ absurd (ground arith)
  | inr e ↦ (ground arith, none_named name files (ground arith))
]

pub Fresh-rest :
    (f : Migration) (files : List Migration) → NamedOnce (f ∷ files) → Fresh (f.name ∷ []) files
Fresh-rest f files h = none_named f.name files (ground (arith, h f.name, same_text_refl f.name))

pub NamedOnce-rest :
    (f : Migration) (files : List Migration) → NamedOnce (f ∷ files) → NamedOnce files
NamedOnce-rest f files h name = elim (Bool-cases (same_text name f.name)) [
  | inl e ↦ ground (arith, h name)
  | inr e ↦ ground (arith, h name)
]

pub Fresh-append :
    (s t : List Text) (files : List Migration)
    → Fresh s files
    → Fresh t files
    → Fresh (s ++ t) files
Fresh-append s t [] h k = tt
Fresh-append s t (f ∷ files) (h, hs) (k, ks) =
    (is_in-append f.name s t ∙ ground arith, Fresh-append s t files hs ks)

pub none_yet : (files : List Migration) → Fresh [] files
none_yet [] = tt
none_yet (f ∷ files) = (refl, none_yet files)

All-front {κ} : (P : Migration → Type κ) (xs ys : List Migration) → All P (xs ++ ys) → All P xs
All-front P [] ys h = tt
All-front P (x ∷ xs) ys (h, hs) = (h, All-front P xs ys hs)

All-behind {κ} : (P : Migration → Type κ) (xs ys : List Migration) → All P (xs ++ ys) → All P ys
All-behind P [] ys h = h
All-behind P (x ∷ xs) ys (h, hs) = All-behind P xs ys hs

Fresh-behind :
    (f : Migration) (older newer : List Migration)
    → NamedOnce (f ∷ older ++ newer)
    → Fresh (f.name ∷ []) newer
Fresh-behind f older newer once =
    All-behind (λ (g : Migration). is_in g.name (f.name ∷ []) ≡ false) older newer
      (Fresh-rest f (older ++ newer) once)

none_left :
    (files : List Migration) (names : List Text)
    → All (λ (f : Migration). is_in f.name names ≡ true) files
    → pending names files ≡ []
none_left [] names h = refl
none_left (f ∷ files) names (h, hs) = rw h (none_left files names hs)

-- The files of which each name is in one of two lists.
abbrev Seen : List Text → List Text → List Migration → Type 0
Seen s t files = All (λ (f : Migration). (is_in f.name s || is_in f.name t) ≡ true) files

Seen-more :
    (s t : List Text) (name : Text) (files : List Migration)
    → Seen s t files
    → Seen s (name ∷ t) files
Seen-more s t name [] h = tt
Seen-more s t name (f ∷ files) (h, hs) = (ground arith, Seen-more s t name files hs)

pending-Seen :
    (names : List Text) (files : List Migration) → Seen names (names_of (pending names files)) files
pending-Seen names [] = tt
pending-Seen names (f ∷ files) =
    let todo : Migration → Bool = λ (g : Migration). not (is_in g.name names) in
    elim (Bool-cases (is_in f.name names)) [
      | inl e ↦
          subst (λ fs. Seen names (names_of fs) (f ∷ files))
            (sym (select_miss todo f files (ground arith))) (ground arith, pending-Seen names files)
      | inr e ↦
          subst (λ fs. Seen names (names_of fs) (f ∷ files))
            (sym (select_hit todo f files (ground arith)))
            (
              ground (arith, same_text_refl f.name),
              Seen-more names (names_of (pending names files)) f.name files
                  (pending-Seen names files),
            )
    ]

Seen-append :
    (s t : List Text) (files : List Migration)
    → Seen s t files
    → All (λ (f : Migration). is_in f.name (s ++ t) ≡ true) files
Seen-append s t [] h = tt
Seen-append s t (f ∷ files) (h, hs) = (is_in-append f.name s t ∙ h, Seen-append s t files hs)

pub none_pending :
    (names : List Text) (files : List Migration)
    → pending (names ++ names_of (pending names files)) files ≡ []
none_pending names files =
    none_left files _
      (Seen-append names (names_of (pending names files)) files (pending-Seen names files))

-- What was done of the older files is nothing of the newer ones.
pub Fresh-pending :
    (names : List Text) (older newer : List Migration)
    → NamedOnce (older ++ newer)
    → Fresh (names_of (pending names older)) newer
Fresh-pending names [] newer once = none_yet newer
Fresh-pending names (f ∷ older) newer once =
    let rest = Fresh-pending names older newer (NamedOnce-rest f (older ++ newer) once) in
    elim (Bool-cases (is_in f.name names)) [
      | inl e ↦ rw e rest
      | inr e ↦ rw e (
          Fresh-append (f.name ∷ []) (names_of (pending names older)) newer
            (Fresh-behind f older newer once) rest)
    ]

pub pending-more :
    (names done : List Text) (files : List Migration)
    → Fresh done files
    → pending (names ++ done) files ≡ pending names files
pending-more names done [] h = refl
pending-more names done (f ∷ files) (h, hs) = elim (Bool-cases (is_in f.name names)) [
  | inl e ↦ rw (is_in-append f.name names done) (rw e (pending-more names done files hs))
  | inr e ↦
      rw (is_in-append f.name names done)
        (rw e (rw h (ap (λ fs. f ∷ fs) (pending-more names done files hs))))
]

pub IsSorted-front : (xs ys : List Migration) → IsSorted by_name (xs ++ ys) → IsSorted by_name xs
IsSorted-front [] ys h = tt
IsSorted-front (x ∷ xs) ys (h, hs) =
    (All-front (λ y. by_name x y ≡ true) xs ys h, IsSorted-front xs ys hs)
