-- ===== src/Mir/Inline/RenamedNames.antt =====
-- The target of a renamed statement is the new name of its target.
use text.Mathlib.TextEquality.{eq_iff}
use rlyeh_language.Common.{
  ◌≡◌, ◌≢◌, refl, true, false, Option, none, some, List, [], ◌∷◌, ◌++◌, map, arith,
}
use rlyeh_language.Mir.{FieldScalar, Local, MirStmt}
use rlyeh_language.Mir.Dce.{contains}
use rlyeh_language.Mir.Dce.Operands.{length_operand, IsDirect, Within}
use rlyeh_language.Mir.Inline.Names.{rename_option, rename_stmt, targets_of, names_of}

length_operand-rename_option :
    (f : Local → Local) (o : Option Local)
    → length_operand (rename_option f o) ≡ map f (length_operand o)
length_operand-rename_option f none = refl
length_operand-rename_option f (some x) = refl

pub targets_of-rename_stmt :
    (f : Local → Local) (s : MirStmt) → targets_of (rename_stmt f s) ≡ map f (targets_of s)
unfolding rename_stmt
targets_of-rename_stmt f (MirStmt.call t c xs) = length_operand-rename_option f t
targets_of-rename_stmt f (MirStmt.call_indirect t c xs ps r) = length_operand-rename_option f t
targets_of-rename_stmt f _ = refl

Within-cons : (t : Local) (l : List Local) → Within (t ∷ []) (t ∷ l)
unfolding contains
Within-cons t l x m = ground arith

Within-operand :
    (t : Option Local) (l : List Local) → Within (length_operand t) (length_operand t ++ l)
unfolding contains
Within-operand none l x m = cc
Within-operand (some t) l x m = ground arith

Within-nothing : (l : List Local) → Within [] l
unfolding contains
Within-nothing l x m = cc

-- A target is a name.
pub Within-targets_of : (s : MirStmt) → Within (targets_of s) (names_of s)
Within-targets_of (MirStmt.assign t v) = Within-cons t _
Within-targets_of (MirStmt.call t c xs) = Within-operand t xs
Within-targets_of (MirStmt.call_indirect t c xs ps r) = Within-operand t _
Within-targets_of (MirStmt.region_enter n o) = Within-nothing _
Within-targets_of (MirStmt.region_exit n) = Within-nothing _
Within-targets_of (MirStmt.field_set b i v ty) = Within-nothing _
Within-targets_of (MirStmt.index_set b i v ty s l) = Within-nothing _
Within-targets_of (MirStmt.deref_write b v ty) = Within-nothing _
Within-targets_of (MirStmt.alloc_in_region t r n) = Within-cons t _
Within-targets_of (MirStmt.transfer t r) = Within-cons t _
Within-targets_of (MirStmt.alloc t n b s) = Within-cons t _
Within-targets_of (MirStmt.field_get t b i ty) = Within-cons t _
Within-targets_of (MirStmt.index_get t b i ty s l) = Within-cons t _
Within-targets_of (MirStmt.addr_of t o p) = Within-cons t _
Within-targets_of (MirStmt.deref_read t b ty) = Within-cons t _
Within-targets_of (MirStmt.addr_of_field t b i ty) = Within-cons t _
Within-targets_of (MirStmt.ptr_add t b o e s) = Within-cons t _
Within-targets_of (MirStmt.cast t v to) = Within-cons t _

pub rename_stmt-IsDirect :
    (f : Local → Local) (s : MirStmt) → IsDirect s → IsDirect (rename_stmt f s)
unfolding rename_stmt
rename_stmt-IsDirect f (MirStmt.addr_of t o FieldScalar.ptr) d = tt
rename_stmt-IsDirect f (MirStmt.deref_read t b FieldScalar.ptr) d = tt
rename_stmt-IsDirect f (MirStmt.addr_of t o _) d = absurd d
rename_stmt-IsDirect f (MirStmt.deref_read t b _) d = absurd d
rename_stmt-IsDirect f (MirStmt.deref_write b v ty) d = absurd d
rename_stmt-IsDirect f _ d = tt

pub contains-map :
    (f : Local → Local) (l : List Local) (y : Local)
    → ((x : Local) → contains x l ≡ true → f x ≢ y)
    → contains y (map f l) ≡ false
unfolding contains
contains-map f [] y h = refl
contains-map f (x ∷ l) y h =
    let other : f x ≢ y = h x (ground (arith, eq_iff x x)) in
    let rest : contains y (map f l) ≡ false = contains-map f l y (λ z m. h z (ground arith)) in
    ground (arith, eq_iff (f x) y)
