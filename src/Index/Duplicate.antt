-- ===== src/Index/Duplicate.antt =====
-- index_add with a key that is in the list already.
use tuxanci_ng.Prelude.{
  ℕ, zero, suc, ◌+◌, ◌*◌, ◌≤◌, ◌<◌, ◌≡◌, inl, inr, List, true, some, err, aborted, arith, ◌==◌,
  Bool-cases, ℕ_discrete, length, get_elem?,
}
use tuxanci_ng.Prelude.Int.{ℤ, pos, ltb_ℤ}
use tuxanci_ng.Index.{IndexItem, add_loop}
use tuxanci_ng.Index.Keys.{IsSorted, nth}
use tuxanci_ng.Index.Bisect.{last, mid, upper, lower, upper-last}
use tuxanci_ng.Index.Place.{place-upper, place-lower}
use tuxanci_ng.Index.Insert.{round}

module _ {ℓ} {D : Type ℓ} where
  stopped :
      (fuel count : ℕ) (l : List (IndexItem D)) (item : IndexItem D) (min max : ℤ)
      → count + 1 ≡ length l * 5
      → add_loop (suc fuel) count l item min max ≡ err aborted
  unfolding add_loop
  stopped fuel count l item min max e =
      let stop : ((count + 1) == (length l * 5)) ≡ true = ground arith in rw stop

  -- With a key that is in the list the round of its place repeats until the debug counter aborts.
  pub add_loop-duplicate :
      (fuel count lo w : ℕ) (l : List (IndexItem D)) (item there : IndexItem D) (p : ℕ)
      → IsSorted l
      → get_elem? l p ≡ some there
      → there.key ≡ item.key
      → lo ≤ p
      → p < lo + w
      → lo + w ≤ length l
      → count < length l * 5
      → length l * 5 < count + fuel
      → add_loop fuel count l item (pos lo) (last lo w) ≡ err aborted
  add_loop-duplicate zero count lo w l item there p s at_p same hlo hw hl hc hf =
      absurd (omega arith)
  add_loop-duplicate (suc fuel) count lo zero l item there p s at_p same hlo hw hl hc hf =
      absurd (omega arith)
  add_loop-duplicate (suc fuel) count lo (suc v) l item there p s at_p same hlo hw hl hc hf =
      elim (ℕ_discrete (count + 1) (length l * 5)) [
        | yes stop ↦ stopped fuel count l item (pos lo) (last lo (suc v)) stop
        | no more ↦
            let (this, here) = nth l (mid lo v) (omega arith) in
            rw (round fuel count lo v l item this (omega arith) hl here)
              (elim (Bool-cases (ltb_ℤ this.key item.key)) [
                | inl up ↦ rw up (
                    rw (upper-last lo v) (
                      add_loop-duplicate fuel (count + 1) (mid lo v + 1) (upper lo v) l item there p
                        s at_p same (place-upper lo v l this there p s here at_p (ground arith))
                        (omega arith) (omega arith) (omega arith) (omega arith)))
                | inr not_up ↦ elim (Bool-cases (ltb_ℤ item.key this.key)) [
                  | inl down ↦
                      rw (not_up, down)
                        (add_loop-duplicate fuel (count + 1) lo (lower v) l item there p s at_p same
                          hlo (place-lower lo v l this there p s here at_p (ground arith))
                          (omega arith) (omega arith) (omega arith))
                  | inr not_down ↦
                      rw (not_up, not_down)
                        (add_loop-duplicate fuel (count + 1) lo (suc v) l item there p s at_p same
                          hlo hw hl (omega arith) (omega arith))
                ]
              ])
      ]
