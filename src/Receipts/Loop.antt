-- ===== src/Receipts/Loop.antt =====
-- The loop of `commit` of src/ios_rehydrate/receipts.py that writes the bytes.
use mathlib.Core.List.{append-nil}
use native.Mathlib.Nat.{add-zero, zero-add, suc-add}
use ios_rehydrate.Prelude.{
  ℕ, zero, suc, ◌+◌, ◌≤◌, ◌≡◌, refl, sym, ap, true, false, some, List, [], ◌∷◌, ◌++◌, length, take,
  drop, min, arith, length-take, length-drop, take-length,
}
use ios_rehydrate.Prelude.Bytes.{Bytes}
use ios_rehydrate.Errors.{done}
use ios_rehydrate.Receipts.Files.{
  Identity, Inode, World, Process, Environment, overlay, zeros, enter, write,
}
use ios_rehydrate.Receipts.{write_all}

module _ {ℓ} {A : Type ℓ} where
  take-take-drop : (k c : ℕ) (xs : List A) → take k xs ++ take c (drop k xs) ≡ take (k + c) xs
  take-take-drop zero c xs = rw zero-add refl
  take-take-drop (suc k) zero [] = rw add-zero refl
  take-take-drop (suc k) (suc c) [] = rw suc-add refl
  take-take-drop (suc k) c (x ∷ xs) =
      rw suc-add (ap (λ (r : List A). x ∷ r) (take-take-drop k c xs))

  drop_beyond : (n : ℕ) (xs : List A) → length xs ≤ n → drop n xs ≡ []
  drop_beyond zero [] h = refl
  drop_beyond zero (x ∷ xs) h = ground arith
  drop_beyond (suc n) [] h = refl
  drop_beyond (suc n) (x ∷ xs) h = drop_beyond n xs (omega arith)

  take_whole : (n : ℕ) (xs ys : List A) → length xs ≡ n → take n (xs ++ ys) ≡ xs
  take_whole n xs ys h = rw (sym h) (take-length xs ys)

overlay_extends :
    (k c : ℕ) (xs : Bytes)
    → k ≤ length xs
    → overlay k (take c (drop k xs)) (take k xs) ≡ take (k + c) xs
unfolding overlay
overlay_extends k c xs h =
    rw
      (
        take_whole k (take k xs) (zeros k) (omega (arith, length-take k xs)),
        drop_beyond (k + length (take c (drop k xs))) (take k xs) (omega (arith, length-take k xs)),
        append-nil,
      )
      (take-take-drop k c xs)

-- A regular file with one name.
pub record IsPlain (inode : Inode) : Type 0 where
  pub regular : inode.regular ≡ true
  pub not_link : inode.link ≡ false
  pub not_reparse : inode.reparse ≡ false
  pub one_name : inode.links ≡ 1

pub IsPlain-eq : {n m : Inode} → n ≡ m → IsPlain n → IsPlain m
IsPlain-eq h plain = ground (arith, plain)

-- Other processes leave the inode `i` alone.
pub record IsRespectful (env : Environment) (i : Identity) : Type 0 where
  pub untouched : (n : ℕ) (w : World) → (env.others n w).at i ≡ w.at i

module _ (env : Environment) (i : Identity) (respects : IsRespectful env i) (d : ℕ)
    (bytes : Bytes) where
  -- The first `written` bytes are in the file, which has one name, and the descriptor stands behind them.
  pub record HasWritten (written : ℕ) (p : Process) : Type 0 where
    pub position : p.descriptors d ≡ some (record { identity = i; position = written })
    pub content : (p.world.at i).content ≡ take written bytes
    pub plain : IsPlain (p.world.at i)
    pub bounded : written ≤ length bytes

  write-HasWritten :
      (p : Process) (written count : ℕ) (q : Process)
      → HasWritten written p
      → write env d (drop written bytes) p ≡ (done count, q)
      → HasWritten (written + count) q
  unfolding write enter
  write-HasWritten p written count q h e = ground (
    arith,
    respects.untouched p.clock p.world,
    length-drop written bytes,
    length-take (min (env.progress p.clock) (length (drop written bytes))) (drop written bytes),
    overlay_extends written count bytes,
  )

  pub write_all-HasWritten :
      (fuel written : ℕ) (p q : Process)
      → HasWritten written p
      → write_all env fuel d bytes written p ≡ (done tt, q)
      → HasWritten (length bytes) q
  unfolding write_all
  write_all-HasWritten zero written p q h e = cc
  write_all-HasWritten (suc fuel) written p q h e =
      let written_here =
        λ (n : ℕ). write-HasWritten p written n (write env d (drop written bytes) p).1 h in
      let written_later = λ (n : ℕ).
        write_all-HasWritten fuel (written + n) (write env d (drop written bytes) p).1 q in
      grind (arith, written_here, written_later)

-- Given one round more than bytes are left, the writing loop of commit ends: any number of further
-- rounds changes neither its result nor the state.
pub write_all_enough :
    (env : Environment) (fuel extra d : ℕ) (bytes : Bytes) (written : ℕ) (p : Process)
    → length bytes ≤ written + fuel
    → write_all env (suc (fuel + extra)) d bytes written p
      ≡ write_all env (suc fuel) d bytes written p
unfolding write_all
write_all_enough env zero extra d bytes written p h = ground arith
write_all_enough env (suc fuel) extra d bytes written p h = rw suc-add (
    let later = λ (n : ℕ) (q : Process). write_all_enough env fuel extra d bytes (written + n) q in
    grind (arith, later))
