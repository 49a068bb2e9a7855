-- ===== src/Paging/Brk.antt =====
-- sys_brk, whose loop has no step.
use os_store.Base.{
  ℕ, zero, suc, ◌≡◌, ◌≢◌, ◌^◌, ◌%◌, ◌<◌, Bool, true, not, ltb, leb, ◌==◌, ◌&&◌, arith, done,
  Ensures, Ensures-any, Ensures-bind, Ensures-assert,
}
use mathlib.Core.Path.{subst}
use os_store.Task.{kernel_user}
use os_store.Pages.{kernel_memory_size}
use os_store.Paging.{Space, user_stack_bottom, unlink_page, brk_loop, sys_brk}

module _ {A : Type 0} where
  brk_loop_never :
      (fuel page old_brk : ℕ) (s : Space A)
      → ltb page old_brk ≡ true
      → Ensures (λ _. ⊥) (brk_loop fuel page old_brk s)
  unfolding brk_loop
  brk_loop_never zero page old_brk s h = tt
  brk_loop_never (suc fuel) page old_brk s h =
      rw (brk_loop, h)
        (Ensures-bind (λ _. Unit {0}) (λ _. ⊥) (unlink_page page s) _
          (Ensures-any (unlink_page page s)) (λ s' _. brk_loop_never fuel page old_brk s' h))

  -- A call of `sys_brk` with an address below the present end of the heap never returns, however many rounds
  -- its loop makes.
  pub sys_brk_never :
      (fuel brk : ℕ) (s : Space A) (r : Bool × Space A) → brk < s.brk → sys_brk fuel brk s ≢ done r
  unfolding sys_brk
  sys_brk_never fuel brk s r l e =
      let h : ltb brk s.brk ≡ true = ground (arith, l) in
      subst (Ensures (λ _. ⊥)) e (
        Ensures-assert (λ _. ⊥) (brk % 2 ^ 12 == 0) _
          (λ _.
            Ensures-assert (λ _. ⊥) (not (s.uid == kernel_user)) _
              (λ _.
                Ensures-assert (λ _. ⊥) (leb kernel_memory_size brk && ltb brk user_stack_bottom) _
                  (λ _. rw h (
                    Ensures-bind (λ _. ⊥) (λ _. ⊥) (brk_loop fuel brk s.brk s) _
                      (brk_loop_never fuel brk s.brk s h) (λ _ f. absurd f))))))
