-- ===== src/Receive/Reassembly.antt =====
-- client/client.go: what the receive loop makes of the fragments of whole messages.
use go_psrp.Common.{
  ℕ, suc, ◌+◌, ◌/◌, ◌%◌, ◌^◌, ◌<◌, Bool, true, false, ◌||◌, none, List, [], ◌∷◌, ◌++◌,
  if◌then◌else◌, length,
}
use go_psrp.Common.Text.{Text}
use go_psrp.Receive.{Pipelines, dispatch}

-- Eight bytes.
pub record Eight : Type 0 where
  pub b0 : ℕ
  pub b1 : ℕ
  pub b2 : ℕ
  pub b3 : ℕ
  pub b4 : ℕ
  pub b5 : ℕ
  pub b6 : ℕ
  pub b7 : ℕ

abbrev pub bytes : Eight → Text
bytes e = e.b0 ∷ e.b1 ∷ e.b2 ∷ e.b3 ∷ e.b4 ∷ e.b5 ∷ e.b6 ∷ e.b7 ∷ []

-- A piece of a message, with the identifiers of the object and of the fragment.
pub record Part : Type 0 where
  pub object_id : Eight
  pub fragment_id : Eight
  pub blob : Text

abbrev pub big_endian : ℕ → Text
big_endian n = n / 2 ^ 24 ∷ n / 2 ^ 16 % 2 ^ 8 ∷ n / 2 ^ 8 % 2 ^ 8 ∷ n % 2 ^ 8 ∷ []

-- A fragment as MS-PSRP lays it out, before the bytes that follow: the two identifiers, the flags,
-- the length of the blob, and the blob.
abbrev pub fragment : ℕ → Part → Text → Text
fragment flags x rest =
    bytes x.object_id
    ++ (bytes x.fragment_id ++ (flags ∷ (big_endian (length x.blob) ++ (x.blob ++ rest))))

abbrev start_flag : Bool → ℕ
start_flag true = 1
start_flag false = 0

-- A message cut into parts: the first fragment has bit 0 of the flags set, the last one bit 1.
abbrev pub encode_parts : Bool → Part → List Part → Text → Text
encode_parts first x [] rest = fragment (start_flag first + 2) x rest
encode_parts first x (y ∷ ys) rest = fragment (start_flag first) x (encode_parts false y ys rest)

abbrev pub joined : Part → List Part → Text
joined x [] = x.blob
joined x (y ∷ ys) = x.blob ++ joined y ys

-- The blobs fit into the length field.
abbrev pub Fit : Part → List Part → Type 0
Fit x [] = length x.blob < 2 ^ 32
Fit x (y ∷ ys) = (length x.blob < 2 ^ 32) × Fit y ys

pub record Split : Type 0 where
  pub first : Part
  pub others : List Part

abbrev pub encode_all : List Split → Text
encode_all [] = []
encode_all (m ∷ ms) = encode_parts true m.first m.others (encode_all ms)

abbrev pub AllFit : List Split → Type 0
AllFit [] = Unit
AllFit (m ∷ ms) = Fit m.first m.others × AllFit ms

-- A round for each part, and some more.
abbrev pub part_rounds : List Part → ℕ → ℕ
part_rounds [] spare = suc spare
part_rounds (y ∷ ys) spare = suc (part_rounds ys spare)

abbrev pub rounds : List Split → ℕ → ℕ
rounds [] spare = spare
rounds (m ∷ ms) spare = part_rounds m.others (rounds ms spare)

module _ (pipelines : Pipelines) where
  open pipelines use {Pipeline, is_done, ended}

  after : (Pipeline → Pipeline) → Pipeline × Bool → Pipeline
  after again (p, true) = again p
  after again (p, false) = p

  -- The pipeline after whole messages, one after the other, until the pipeline is done, the context
  -- has ended or a message fails.
  unfoldable pub delivered : List Split → Pipeline → Pipeline
  unfolding after
  delivered [] p = p
  delivered (m ∷ ms) p =
      if is_done p || ended p
      then p
      else after (delivered ms) (dispatch pipelines none (joined m.first m.others) p)
