-- ===== src/Receive.antt =====
-- client/client.go: runPipelineReceive, which reads the fragments of a pipeline's output, puts the
-- messages together and hands them to the pipeline. The reader is the list of bytes it still gives,
-- and the error after them if that is not io.EOF.
pub mod Reassembly
mod Examples
use go_psrp.Common.{
  ℕ, zero, suc, ◌+◌, ◌*◌, ◌/◌, ◌%◌, ◌^◌, Bool, true, false, ◌||◌, Option, none, some, List, [], ◌∷◌,
  ◌++◌, if◌then◌else◌, ltb, ◌==◌,
}
use go_psrp.Common.State.{Result, ok, err}
use go_psrp.Common.Text.{Text, codes, is_empty}
use go_psrp.Common.Errors.{GoError, Sentinel, wrap, sentinel, eof, unexpected_eof}

-- io.ReadFull: the bytes and what is left of the reader, or the error.
pub data Reading : Type 0 where
  full : Text → Text → Reading
  no_bytes : Reading
  too_few : Reading

one_more : ℕ → Reading → Reading
one_more c (full bytes rest) = full (c ∷ bytes) rest
one_more c no_bytes = too_few
one_more c too_few = too_few

unfoldable pub read_full : ℕ → Text → Reading
unfolding one_more
read_full zero s = full [] s
read_full (suc n) [] = no_bytes
read_full (suc n) (c ∷ s) = one_more c (read_full n s)

-- The flags and the length of the blob: the bytes 16 and 17 to 20 of the header, big endian.
unfoldable pub header_fields : Text → ℕ × ℕ
header_fields
      (_ ∷ _ ∷ _ ∷ _ ∷ _ ∷ _ ∷ _ ∷ _ ∷ _ ∷ _ ∷ _ ∷ _ ∷ _ ∷ _ ∷ _ ∷ _ ∷ flags ∷ a ∷ b ∷ c ∷ d ∷ _) =
    (flags, a * 2 ^ 24 + b * 2 ^ 16 + c * 2 ^ 8 + d)
header_fields _ = (0, 0)

abbrev pub is_start : ℕ → Bool
is_start flags = flags % 2 == 1

abbrev pub is_end : ℕ → Bool
is_end flags = flags / 2 % 2 == 1

-- What is called: messages.Decode, and the pipeline's HandleMessage, Fail and Done. `ended` is
-- ctx.Done.
pub record Pipelines : Type 1 where
  pub Message : Type 0
  pub Pipeline : Type 0
  pub decode : Text → Result GoError Message
  pub handle : Message → Pipeline → Pipeline × Option GoError
  pub fail : GoError → Pipeline → Pipeline
  pub is_done : Pipeline → Bool
  pub ended : Pipeline → Bool

-- The error of io.ReadFull where the reader ends.
abbrev ending : Option GoError → Sentinel → GoError
ending none s = sentinel s
ending (some e) s = e

module _ (pipelines : Pipelines) (last : Option GoError) where
  open pipelines use {Message, Pipeline, decode, handle, fail, is_done, ended}

  -- After HandleMessage: whether the loop goes on.
  handled : Pipeline × Option GoError → Pipeline × Bool
  handled (p, none) = (p, true)
  handled (p, some e) = (fail (wrap (codes "handle message: ") e) p, false)

  unfoldable pub dispatch : Text → Pipeline → Pipeline × Bool
  unfolding handled
  dispatch bytes p = elim (decode bytes) [
    | err e ↦ (fail (wrap (codes "decode message: ") e) p, false)
    | ok m ↦ handled (handle m p)
  ]

  -- The state of the client's fragmentBuffer, and the pipeline.
  finished : (Text → Pipeline → Text × Pipeline) → Text → Pipeline × Bool → Text × Pipeline
  finished again buffer (p, true) = again [] p
  finished again buffer (p, false) = (buffer, p)

  collected : (Text → Pipeline → Text × Pipeline) → ℕ → Text → Text → Pipeline → Text × Pipeline
  unfolding finished dispatch
  collected again flags blob buffer p =
      let buffer' = (if is_start flags then [] else buffer) ++ blob in
      if is_end flags then finished again buffer' (dispatch buffer' p) else again buffer' p

  blob_read :
      (Text → Text → Pipeline → Text × Pipeline) → ℕ → Reading → Text → Pipeline → Text × Pipeline
  unfolding collected
  blob_read again flags (full blob rest) buffer p = collected (again rest) flags blob buffer p
  blob_read again flags no_bytes buffer p =
      (buffer, fail (wrap (codes "read fragment blob: ") (ending last eof)) p)
  blob_read again flags too_few buffer p =
      (buffer, fail (wrap (codes "read fragment blob: ") (ending last unexpected_eof)) p)

  header_failed : GoError → Pipeline → Pipeline
  header_failed e p = if ended p then p else fail (wrap (codes "read fragment header: ") e) p

  header_read :
      (Text → Text → Pipeline → Text × Pipeline) → Reading → Text → Pipeline → Text × Pipeline
  unfolding blob_read header_fields header_failed
  header_read again no_bytes buffer p = elim last [
    | none ↦ (buffer, p)
    | some e ↦ (buffer, header_failed e p)
  ]
  header_read again too_few buffer p = (buffer, header_failed (ending last unexpected_eof) p)
  header_read again (full header rest) buffer p =
      let (flags, length) = header_fields header in
      blob_read again flags (read_full length rest) buffer p

  -- The loop, on fuel for a round each.
  unfoldable pub receive : ℕ → Text → Text → Pipeline → Text × Pipeline
  unfolding header_read
  receive zero input buffer p = (buffer, p)
  receive (suc fuel) input buffer p =
      if is_done p || ended p
      then (buffer, p)
      else header_read (receive fuel) (read_full 21 input) buffer p
