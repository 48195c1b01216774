-- ===== src/Message/Codec/Cuts.antt =====
-- How a stream of bytes is cut into frames, for MessageCodec (cpm/cpm_message_codec.cc) and
-- ProtocolMessageCodec (cpm/cpm_protocol_message_codec.cc): a description without a loop's
-- counters, by positions in the bytes.
use cpmd.Base.{ℕ, ◌+◌, ◌≤◌, ◌<◌, ◌≡◌, refl, ◌⊎◌, Bool, true, false, List, [], ◌∷◌, length, drop}
use cpmd.Message.Codec.{ReadResult, consumed, closed}
use mathlib.Core.List.{foldl}

module _ {M : Type 0} (at : List ℕ → M) (accepts : M → Bool) (size : M → ℕ) (least : ℕ) where
  -- From the position `p` to the position `q` the bytes are the frames of these messages, one behind
  -- the other: each is what stands there, has a whole header, is accepted, and lies in the bytes.
  abbrev pub Frames : List ℕ → ℕ → List M → ℕ → Type 0
  Frames bytes p [] q = p ≡ q
  Frames bytes p (m ∷ ms) q =
      (m ≡ at (drop p bytes))
      × (accepts m ≡ true)
      × (p + least ≤ length bytes)
      × (p + size m ≤ length bytes)
      × Frames bytes (p + size m) ms q

  -- Why the cutting ends at `q`, and how: what is left is less than a header or than a message that
  -- is accepted, and the bytes in front are consumed; or the header is not accepted, and the
  -- connection is closed.
  abbrev pub Ending {ℓ} : {S : Type ℓ} → List ℕ → ℕ → S → ReadResult S → Type ℓ
  Ending bytes q t r =
      ((r ≡ consumed q t)
        × ((length bytes < q + least)
            ⊎ ((accepts (at (drop q bytes)) ≡ true)
                × (length bytes < q + size (at (drop q bytes))))))
      ⊎ ((r ≡ closed t) × (q + least ≤ length bytes) × (accepts (at (drop q bytes)) ≡ false))

  -- The result `r`, from the position `p` and the state `s` on, is that of handing over the frames
  -- up to an end.
  abbrev pub IsCut {ℓ} : {S : Type ℓ} → (S → M → S) → List ℕ → ℕ → S → ReadResult S → Type ℓ
  IsCut f bytes p s r =
      (ms : List M) × (q : ℕ) × Frames bytes p ms q × Ending bytes q (foldl f s ms) r

  pub IsCut-cons {ℓ} :
      {S : Type ℓ} (f : S → M → S) (bytes : List ℕ) (p : ℕ) (s : S) (r : ReadResult S)
      → accepts (at (drop p bytes)) ≡ true
      → p + least ≤ length bytes
      → p + size (at (drop p bytes)) ≤ length bytes
      → IsCut f bytes (p + size (at (drop p bytes))) (f s (at (drop p bytes))) r
      → IsCut f bytes p s r
  IsCut-cons f bytes p s r a h k (ms, q, frames, ending) =
      (at (drop p bytes) ∷ ms, q, (refl, a, h, k, frames), ending)
