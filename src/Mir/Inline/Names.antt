-- ===== src/Mir/Inline/Names.antt =====
-- The locals of a statement, and its renaming by a function: the description that the pass is
-- compared with.
use rlyeh_language.Common.{Option, none, some, List, [], ◌∷◌, ◌++◌, map}
use rlyeh_language.Mir.{Local, MirValue, MirStmt}
use rlyeh_language.Mir.Dce.Operands.{locals_of, length_operand}

abbrev pub rename_option : (Local → Local) → Option Local → Option Local
rename_option f none = none
rename_option f (some x) = some (f x)

unfoldable pub rename_value : (Local → Local) → MirValue → MirValue
rename_value f (MirValue.place p) = MirValue.place (f p)
rename_value f (MirValue.binary op l r) = MirValue.binary op (rename_value f l) (rename_value f r)
rename_value f (MirValue.unary op o) = MirValue.unary op (rename_value f o)
rename_value f v = v

unfoldable pub rename_stmt : (Local → Local) → MirStmt → MirStmt
unfolding rename_value
rename_stmt f (MirStmt.assign t v) = MirStmt.assign (f t) (rename_value f v)
rename_stmt f (MirStmt.call t c xs) = MirStmt.call (rename_option f t) c (map f xs)
rename_stmt f (MirStmt.call_indirect t c xs ps r) =
    MirStmt.call_indirect (rename_option f t) (f c) (map f xs) ps r
rename_stmt f (MirStmt.region_enter n o) = MirStmt.region_enter n o
rename_stmt f (MirStmt.region_exit n) = MirStmt.region_exit n
rename_stmt f (MirStmt.alloc_in_region t r n) = MirStmt.alloc_in_region (f t) r n
rename_stmt f (MirStmt.transfer p r) = MirStmt.transfer (f p) r
rename_stmt f (MirStmt.alloc t n b s) = MirStmt.alloc (f t) n b s
rename_stmt f (MirStmt.field_get t b i ty) = MirStmt.field_get (f t) (f b) i ty
rename_stmt f (MirStmt.field_set b i v ty) = MirStmt.field_set (f b) i (f v) ty
rename_stmt f (MirStmt.index_get t b i ty s l) =
    MirStmt.index_get (f t) (f b) (f i) ty s (rename_option f l)
rename_stmt f (MirStmt.index_set b i v ty s l) =
    MirStmt.index_set (f b) (f i) (f v) ty s (rename_option f l)
rename_stmt f (MirStmt.addr_of t o p) = MirStmt.addr_of (f t) (f o) p
rename_stmt f (MirStmt.deref_read t b ty) = MirStmt.deref_read (f t) (f b) ty
rename_stmt f (MirStmt.deref_write b v ty) = MirStmt.deref_write (f b) (f v) ty
rename_stmt f (MirStmt.addr_of_field t b i ty) = MirStmt.addr_of_field (f t) (f b) i ty
rename_stmt f (MirStmt.ptr_add t b o e s) = MirStmt.ptr_add (f t) (f b) (f o) e s
rename_stmt f (MirStmt.cast t v to) = MirStmt.cast (f t) (f v) to

-- Every local that a statement names.
abbrev pub names_of : MirStmt → List Local
names_of (MirStmt.assign t v) = t ∷ locals_of v
names_of (MirStmt.call t c xs) = length_operand t ++ xs
names_of (MirStmt.call_indirect t c xs ps r) = length_operand t ++ (c ∷ xs)
names_of (MirStmt.region_enter n o) = []
names_of (MirStmt.region_exit n) = []
names_of (MirStmt.alloc_in_region t r n) = t ∷ []
names_of (MirStmt.transfer p r) = p ∷ []
names_of (MirStmt.alloc t n b s) = t ∷ []
names_of (MirStmt.field_get t b i ty) = t ∷ b ∷ []
names_of (MirStmt.field_set b i v ty) = b ∷ v ∷ []
names_of (MirStmt.index_get t b i ty s l) = t ∷ b ∷ i ∷ length_operand l
names_of (MirStmt.index_set b i v ty s l) = b ∷ i ∷ v ∷ length_operand l
names_of (MirStmt.addr_of t o p) = t ∷ o ∷ []
names_of (MirStmt.deref_read t b ty) = t ∷ b ∷ []
names_of (MirStmt.deref_write b v ty) = b ∷ v ∷ []
names_of (MirStmt.addr_of_field t b i ty) = t ∷ b ∷ []
names_of (MirStmt.ptr_add t b o e s) = t ∷ b ∷ o ∷ []
names_of (MirStmt.cast t v to) = t ∷ v ∷ []

-- The local that a direct statement writes.
abbrev pub targets_of : MirStmt → List Local
targets_of (MirStmt.assign t v) = t ∷ []
targets_of (MirStmt.call t c xs) = length_operand t
targets_of (MirStmt.call_indirect t c xs ps r) = length_operand t
targets_of (MirStmt.region_enter n o) = []
targets_of (MirStmt.region_exit n) = []
targets_of (MirStmt.alloc_in_region t r n) = t ∷ []
targets_of (MirStmt.transfer p r) = p ∷ []
targets_of (MirStmt.alloc t n b s) = t ∷ []
targets_of (MirStmt.field_get t b i ty) = t ∷ []
targets_of (MirStmt.field_set b i v ty) = []
targets_of (MirStmt.index_get t b i ty s l) = t ∷ []
targets_of (MirStmt.index_set b i v ty s l) = []
targets_of (MirStmt.addr_of t o p) = t ∷ []
targets_of (MirStmt.deref_read t b ty) = t ∷ []
targets_of (MirStmt.deref_write b v ty) = []
targets_of (MirStmt.addr_of_field t b i ty) = t ∷ []
targets_of (MirStmt.ptr_add t b o e s) = t ∷ []
targets_of (MirStmt.cast t v to) = t ∷ []

unfoldable pub targets_of_all : List MirStmt → List Local
targets_of_all [] = []
targets_of_all (s ∷ rest) = targets_of s ++ targets_of_all rest

unfoldable pub names_of_all : List MirStmt → List Local
names_of_all [] = []
names_of_all (s ∷ rest) = names_of s ++ names_of_all rest
