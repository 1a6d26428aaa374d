-- ===== src/Tests/Arrays.antt =====
-- The growing array of attrstack.c, full and about to grow.
use csup.Prelude.{ℕ, ◌+◌, ◌≡◌, refl, arith, [], ◌∷◌, ◌++◌}
use csup.Prelude.Run.{done}
use csup.Attrstack.{Attrstack, attrstack_push, attrstack_pop, attrstack_size}
use csup.Attrstack.Growth.{IsValid as IsValidStack, contents as stacked, attrstack_push-pop}

abbrev full_stack : Attrstack ℕ
full_stack = record { stack = 7 ∷ 8 ∷ []; cur = 2; size = 2 }

full_stack-IsValid : IsValidStack full_stack
full_stack-IsValid = record { slots = refl; cur_le = omega arith; size_pos = omega arith }

attrstack_push-pop_example :
    IsValidStack (attrstack_push (0 ∷ 0 ∷ []) full_stack 9)
    × (stacked (attrstack_push (0 ∷ 0 ∷ []) full_stack 9) ≡ stacked full_stack ++ (9 ∷ []))
    × (attrstack_size (attrstack_push (0 ∷ 0 ∷ []) full_stack 9) ≡ attrstack_size full_stack + 1)
    × (t : Attrstack ℕ) × (attrstack_pop (attrstack_push (0 ∷ 0 ∷ []) full_stack 9) ≡ done (9, t))
    × (attrstack_size t ≡ attrstack_size full_stack)
    × (stacked t ≡ stacked full_stack)
attrstack_push-pop_example =
    attrstack_push-pop (0 ∷ 0 ∷ []) full_stack 9 full_stack-IsValid (omega arith) refl
