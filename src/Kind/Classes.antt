-- ===== src/Kind/Classes.antt =====
-- The classification of src/common/types.rs against what the MIME types of each kind look like.
use mimeclip.Base.{
  ℕ, ◌≡◌, refl, sym, ◌&&◌, Bool, Bool-cases, inl, inr, ◌⊎◌, Some, Reflects, Reflects-any,
  Reflects-or, Reflects-and, Reflects-map, true, false, if◌then◌else◌, ◌==◌, ◌||◌, List, [], ◌∷◌,
  ◌++◌, any, arith,
}
use mimeclip.Base.Bytes.{Text, text_eq, text_eq_iff, starts_with}
use mimeclip.Base.Bytes
use mimeclip.Kind.{
  EntryKind, text, uri, file, image, other, label, parse_kind, is_file_marker, is_file_companion,
  is_uri_list, is_file_offer, has, classify_kind, uri_list,
}

-- A kind that the database wrote is read back as itself.
parse_kind-label : (k : EntryKind) → parse_kind (label k) ≡ k
unfolding parse_kind label text_eq
parse_kind-label text = refl
parse_kind-label uri = refl
parse_kind-label file = refl
parse_kind-label image = refl
parse_kind-label other = refl

abbrev HasPrefix : Text → Text → Type 0
HasPrefix p m = (rest : Text) × (p ++ rest ≡ m)

-- A type that only a file manager offers
abbrev IsFileMarker : Text → Type 0
IsFileMarker m = (m ≡ Bytes.text "x-kde-cut-selection") ⊎ HasPrefix (Bytes.text "x-special/") m

-- A type that makes a list of URIs one of files
abbrev IsFileCompanion : Text → Type 0
IsFileCompanion m =
    HasPrefix (Bytes.text "application/x-kde") m ⊎ HasPrefix (Bytes.text "x-special") m

abbrev OffersUris : List Text → Type 0
OffersUris = Some (λ m. m ≡ Bytes.text "text/uri-list")

abbrev OffersFiles : List Text → Type 0
OffersFiles mimes = Some IsFileMarker mimes ⊎ (OffersUris mimes × Some IsFileCompanion mimes)

abbrev OffersImage : List Text → Type 0
OffersImage = Some (HasPrefix (Bytes.text "image/"))

abbrev OffersText : List Text → Type 0
OffersText = Some (HasPrefix (Bytes.text "text/"))

-- What makes an offer one of a kind.
abbrev pub IsOf : EntryKind → List Text → Type 0
IsOf file mimes = OffersFiles mimes
IsOf image mimes = ¬ OffersFiles mimes × OffersImage mimes
IsOf uri mimes = ¬ OffersFiles mimes × ¬ OffersImage mimes × OffersUris mimes
IsOf text mimes = ¬ OffersFiles mimes × ¬ OffersImage mimes × ¬ OffersUris mimes × OffersText mimes
IsOf other mimes =
    ¬ OffersFiles mimes × ¬ OffersImage mimes × ¬ OffersUris mimes × ¬ OffersText mimes

reflect_equal : (a b : Text) → Reflects (a ≡ b) (text_eq a b)
reflect_equal a b = elim (Bool-cases (text_eq a b)) [
  | inl same ↦ rw same ((text_eq_iff a b).0 same)
  | inr differ ↦ rw differ (λ e. cc (differ, (text_eq_iff a b).1 e))
]

reflect_byte : (a b : ℕ) → Reflects (a ≡ b) (a == b)
reflect_byte a b = elim (Bool-cases (a == b)) [
  | inl same ↦ rw same (ground arith)
  | inr differ ↦ rw differ (λ e. ground arith)
]

reflect_prefix : (p m : Text) → Reflects (HasPrefix p m) (starts_with m p)
unfolding starts_with
reflect_prefix [] m = (m, refl)
reflect_prefix (b ∷ p) [] = λ h. cc (h.1)
reflect_prefix (b ∷ p) (c ∷ m) =
    Reflects-map ((c ≡ b) × HasPrefix p m) (HasPrefix (b ∷ p) (c ∷ m)) (c == b && starts_with m p)
      (λ h. (h.1.0, cc (h.0, h.1.1))) (λ h. let (rest, e) = h in (cc e, (rest, cc e)))
      (Reflects-and (c ≡ b) (HasPrefix p m) (c == b) (starts_with m p) (reflect_byte c b)
        (reflect_prefix p m))

reflect_marker : (m : Text) → Reflects (IsFileMarker m) (is_file_marker m)
unfolding is_file_marker
reflect_marker m =
    let gnome = Bytes.text "x-special/gnome-copied-files" in
    let kde = Bytes.text "x-kde-cut-selection" in
    let special = Bytes.text "x-special/" in
    Reflects-map (((m ≡ gnome) ⊎ (m ≡ kde)) ⊎ HasPrefix special m) (IsFileMarker m)
      (is_file_marker m)
      (λ h. elim h [
        | inl (inl e) ↦ inr (Bytes.text "gnome-copied-files", sym e)
        | inl (inr e) ↦ inl e
        | inr q ↦ inr q
      ])
      (λ h. elim h [ inl e ↦ inl (inr e) | inr q ↦ inr q ])
      (Reflects-or ((m ≡ gnome) ⊎ (m ≡ kde)) (HasPrefix special m)
        (text_eq m gnome || text_eq m kde) (starts_with m special)
        (Reflects-or (m ≡ gnome) (m ≡ kde) (text_eq m gnome) (text_eq m kde) (reflect_equal m gnome)
          (reflect_equal m kde))
        (reflect_prefix special m))

reflect_companion : (m : Text) → Reflects (IsFileCompanion m) (is_file_companion m)
unfolding is_file_companion
reflect_companion m =
    Reflects-or _ _ (starts_with m (Bytes.text "application/x-kde"))
      (starts_with m (Bytes.text "x-special")) (reflect_prefix _ m) (reflect_prefix _ m)

reflect_uris : (mimes : List Text) → Reflects (OffersUris mimes) (any is_uri_list mimes)
unfolding is_uri_list
reflect_uris mimes = Reflects-any _ is_uri_list mimes (λ m. reflect_equal m uri_list)

reflect_files : (mimes : List Text) → Reflects (OffersFiles mimes) (is_file_offer mimes)
unfolding is_file_offer
reflect_files mimes =
    Reflects-or (Some IsFileMarker mimes) (OffersUris mimes × Some IsFileCompanion mimes)
      (any is_file_marker mimes) (any is_uri_list mimes && any is_file_companion mimes)
      (Reflects-any IsFileMarker is_file_marker mimes reflect_marker)
      (Reflects-and (OffersUris mimes) (Some IsFileCompanion mimes) (any is_uri_list mimes)
        (any is_file_companion mimes) (reflect_uris mimes)
        (Reflects-any IsFileCompanion is_file_companion mimes reflect_companion))

reflect_has :
    (prefix : Text) (mimes : List Text)
    → Reflects (Some (HasPrefix prefix) mimes) (has mimes prefix)
unfolding has
reflect_has prefix mimes =
    Reflects-any (HasPrefix prefix) (λ m. starts_with m prefix) mimes (reflect_prefix prefix)

chosen-IsOf :
    (mimes : List Text) (files pictures uris texts : Bool)
    → Reflects (OffersFiles mimes) files
    → Reflects (OffersImage mimes) pictures
    → Reflects (OffersUris mimes) uris
    → Reflects (OffersText mimes) texts
    → IsOf
        (if files
          then file
          else if pictures
          then image
          else if uris
          then uri
          else if texts
          then text
          else other)
        mimes
chosen-IsOf mimes true pictures uris texts f i u t = f
chosen-IsOf mimes false true uris texts f i u t = (f, i)
chosen-IsOf mimes false false true texts f i u t = (f, i, u)
chosen-IsOf mimes false false false true f i u t = (f, i, u, t)
chosen-IsOf mimes false false false false f i u t = (f, i, u, t)

-- The kind of an offer is the first that it meets of these: a file, with a type that only a file
-- manager offers (`x-kde-cut-selection`, or one under `x-special/`), or with a list of URIs and a
-- type that begins with `application/x-kde` or `x-special`; an image, with a type under `image/`; a
-- URI, with a list of URIs; a text, with a type under `text/`; and another kind otherwise.
pub classify_kind-IsOf : (mimes : List Text) → IsOf (classify_kind mimes) mimes
unfolding classify_kind
classify_kind-IsOf mimes =
    chosen-IsOf mimes (is_file_offer mimes) (has mimes (Bytes.text "image/"))
      (any is_uri_list mimes) (has mimes (Bytes.text "text/")) (reflect_files mimes)
      (reflect_has (Bytes.text "image/") mimes) (reflect_uris mimes)
      (reflect_has (Bytes.text "text/") mimes)
