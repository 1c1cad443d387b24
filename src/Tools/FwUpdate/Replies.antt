-- ===== src/Tools/FwUpdate/Replies.antt =====
-- What a reply holds.
use libwlmio.Prelude.{
  false, Bool, ◌^◌, length-append, append_assoc, ℕ, ◌+◌, ◌-◌, ◌*◌, ◌≤◌, ◌<◌, ◌≡◌, refl, sym, ◌∙◌,
  ap, List, [], ◌∷◌, ◌++◌, some, arith, length, take, drop, length-take, length-drop, take_all,
  drop_all, Bool-cases, inl, inr, leb, ltb, ◌==◌, ne→==, ◌>>=◌, take-append,
}
use libwlmio.Wire.{
  le_value-le_bytes-append, copy_to_fits, length-le_bytes, length-zeros, Dsdl, le_bytes, zeros,
  copy_to, read_at_fits,
}
use libwlmio.State.{Canard, Transfer, response}
use libwlmio.Tools.FwUpdate.{Server, reply_size, part, reply_payload, uavcan_send, serve}

-- The 256 bytes of the file from an offset on, or what there is of them.
abbrev pub piece : List ℕ → ℕ → List ℕ
piece file offset = take 256 (drop offset file)

pub length-piece :
    (file : List ℕ) (offset : ℕ) → length (piece file offset) ≡ reply_size (length file) offset
length-piece file offset =
    length-take 256 (drop offset file) ∙ ground (arith, length-drop offset file)

part-piece :
    (file : List ℕ) (offset : ℕ)
    → part file offset (reply_size (length file) offset) ≡ some (piece file offset)
part-piece file offset = elim (Bool-cases (leb (length file) offset)) [
  | inl past ↦ rw (past, drop_all offset file (ground arith))
  | inr within ↦ rw within (elim (Bool-cases (ltb 256 (length file - offset))) [
    | inl more ↦ rw more (read_at_fits file offset 256 (ground arith))
    | inr last ↦
        rw (last, ne→== (length file - offset) 0 (λ p. ground arith))
          (read_at_fits file offset (length file - offset) (ground arith)
            ∙ ap some (
                take_all (length file - offset) (drop offset file)
                  (omega (arith, length-drop offset file))
                ∙ sym (take_all 256 (drop offset file) (ground (arith, length-drop offset file)))))
  ])
]

-- Two copies behind each other, and what they fill.
copies :
    (buf a b : List ℕ)
    → length a ≡ 2
    → 4 + length b ≤ length buf
    → (copy_to buf 2 a >>= λ p. copy_to p 4 b >>= λ q. some (take (4 + length b) q))
      ≡ some (take 2 buf ++ (a ++ b))
copies buf a b two fits =
    let head = take 2 buf in
    let first = head ++ (a ++ drop (2 + length a) buf) in
    let length_head : length head ≡ 2 = omega (arith, length-take 2 buf) in
    let length_front : length (head ++ a) ≡ 4 = omega (arith, length-append head a) in
    let front : take 4 first ≡ head ++ a =
      ap (take 4) (sym (append_assoc head a (drop (2 + length a) buf)))
      ∙ take-append 4 (head ++ a) (drop (2 + length a) buf) length_front in
    let length_first : length first ≡ length buf =
      length-append head (a ++ drop (2 + length a) buf)
      ∙ omega (arith, length-append a (drop (2 + length a) buf), length-drop (2 + length a) buf) in
    let rest = drop (4 + length b) first in
    rw (copy_to_fits buf 2 a (omega arith), copy_to_fits first 4 b (omega arith))
      (ap (λ xs. some (take (4 + length b) (xs ++ (b ++ rest)))) front
        ∙ ap (λ xs. some (take (4 + length b) xs)) (sym (append_assoc (head ++ a) b rest))
        ∙ ap some (
            take-append (4 + length b) ((head ++ a) ++ b) rest
              (length-append (head ++ a) b ∙ omega arith))
        ∙ ap some (append_assoc head a b))

zero_head : take 2 (zeros 260) ≡ 0 ∷ 0 ∷ []
unfolding zeros
zero_head = refl

-- The reply begins with no error and the size of the piece.
pub reply_payload-piece :
    (file : List ℕ) (offset : ℕ)
    → reply_payload file offset
      ≡ some (0 ∷ 0 ∷ (le_bytes 2 (length (piece file offset)) ++ piece file offset))
unfolding reply_payload
reply_payload-piece file offset =
    let size = length-piece file offset in
    let few : length (piece file offset) ≤ 256 =
      omega (arith, length-take 256 (drop offset file)) in
    ap
      (λ n. copy_to (zeros 260) 2 (le_bytes 2 n) >>= λ p.
        part file offset (reply_size (length file) offset) >>= λ q.
        copy_to p 4 q >>= λ r. some (take (4 + n) r))
      (sym size)
    ∙ ap
        (λ o. copy_to (zeros 260) 2 (le_bytes 2 (length (piece file offset))) >>= λ p.
          o >>= λ q. copy_to p 4 q >>= λ r. some (take (4 + length (piece file offset)) r))
        (part-piece file offset)
    ∙ copies (zeros 260) (le_bytes 2 (length (piece file offset))) (piece file offset)
        (length-le_bytes 2 (length (piece file offset))) (omega (arith, length-zeros 260))
    ∙ ap (λ head. some (head ++ (le_bytes 2 (length (piece file offset)) ++ piece file offset)))
        zero_head

pub offset_of :
    (d : Dsdl) (offset : ℕ) (path : List ℕ)
    → offset < 2 ^ 40
    → d.get_u64 (le_bytes 5 offset ++ path) (0 * 8) 40 ≡ offset
offset_of d offset path fits =
    d.get_u64_lem (le_bytes 5 offset ++ path) 0 40 (omega arith)
    ∙ omega (arith, le_value-le_bytes-append 5 offset path (omega arith))

-- fwupdate answers a request for what follows an offset below 2^40, with any path, without a fault:
-- the answer is no error, a size and that many bytes of the file from the offset on, 256 or as many
-- as there are, and it goes to the node that is updated under the request's port and transfer
-- identifier.
pub serve-piece :
    {Ins : Type 0} (can : Canard Ins) (d : Dsdl) (file : List ℕ) (node_id : ℕ) (written : List Bool)
    (tfr : Transfer) (offset : ℕ) (path : List ℕ) (s : Server Ins)
    → tfr.payload ≡ le_bytes 5 offset ++ path
    → offset < 2 ^ 40
    → serve can d file node_id written tfr s
      ≡ uavcan_send can written (record s {
        canard = can.tx_push s.canard (record tfr {
          transfer_kind = response;
          remote_node_id = node_id;
          payload = 0 ∷ 0 ∷ (le_bytes 2 (length (piece file offset)) ++ piece file offset);
        });
      })
unfolding serve
serve-piece can d file node_id written tfr offset path s is fits =
    rw (is, offset_of d offset path fits, reply_payload-piece file offset, not_empty)
  where
    not_empty : (length (le_bytes 5 offset ++ path) == 0) ≡ false
    not_empty =
        ne→== (length (le_bytes 5 offset ++ path)) 0
          (omega (arith, length-append (le_bytes 5 offset) path, length-le_bytes 5 offset))
