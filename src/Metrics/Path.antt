-- ===== src/Metrics/Path.antt =====
-- `normalizePath` of internal/metrics/handler.go.
use aizen_gate.Base.{
  ◌≡◌, ◌≢◌, refl, ap, ◌∙◌, Char, String, Bool, true, false, List, [], ◌∷◌, All, arith,
  if◌then◌else◌,
}
use aizen_gate.Base.Text.{split, join}
use aizen_gate.Base.Text.Laws.{Free, split-Free, split-ne-nil, split-join}
use aizen_gate.Metrics.{mask, mask_parts, normalize_path}

mask_idem : (part : String) → mask (mask part) ≡ mask part
unfolding mask
mask_idem part = ground arith

mask_parts_idem : (parts : List String) → mask_parts (mask_parts parts) ≡ mask_parts parts
unfolding mask_parts
mask_parts_idem [] = refl
mask_parts_idem (part ∷ parts) = cc (mask_idem part, mask_parts_idem parts)

chosen-Free : (b : Bool) (part : String) → Free b'/' part → Free b'/' (if b then ":id" else part)
chosen-Free true part h = omega arith
chosen-Free false part h = h

mask-Free : (part : String) → Free b'/' part → Free b'/' (mask part)
unfolding mask
mask-Free part h = chosen-Free _ part h

mask_parts-Free : (parts : List String) → All (Free b'/') parts → All (Free b'/') (mask_parts parts)
unfolding mask_parts
mask_parts-Free [] h = tt
mask_parts-Free (part ∷ parts) (h, hs) = (mask-Free part h, mask_parts-Free parts hs)

mask_parts-ne-nil : (parts : List String) → parts ≢ [] → mask_parts parts ≢ []
unfolding mask_parts
mask_parts-ne-nil [] h = h
mask_parts-ne-nil (part ∷ parts) h = cc

abbrev slash : Char
slash = "/"

-- The parts of a normalised path are the masked parts of the path.
pub split-normalize_path :
    (path : String) → split (normalize_path path) b'/' ≡ mask_parts (split path b'/')
unfolding normalize_path
split-normalize_path path =
    split-join (mask_parts (split path b'/')) slash (mask_parts-ne-nil _ (split-ne-nil path b'/'))
      (mask_parts-Free _ (split-Free path b'/'))

-- Normalising a second time changes nothing.
pub normalize_path_idem :
    (path : String) → normalize_path (normalize_path path) ≡ normalize_path path
unfolding normalize_path
normalize_path_idem path =
    ap (λ parts. join parts "/") (ap mask_parts (split-normalize_path path) ∙ mask_parts_idem _)
