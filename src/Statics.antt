-- ===== src/Statics.antt =====
-- The static global references of the crate: the symbols of src/symbol.rs and the functions of
-- src/subr.rs, in the order of their declarations.
use emacs_module_rs.Machine.{Static}

abbrev pub nil : Static
nil = 0

abbrev pub t : Static
t = 1

abbrev pub error : Static
error = 2

abbrev pub rust_error : Static
rust_error = 3

abbrev pub rust_panic : Static
rust_panic = 4

abbrev pub rust_wrong_type_user_ptr : Static
rust_wrong_type_user_ptr = 5

abbrev pub cons : Static
cons = 6

abbrev pub car : Static
car = 7

abbrev pub cdr : Static
cdr = 8

abbrev pub vector : Static
vector = 9

abbrev pub make_vector : Static
make_vector = 10

abbrev pub list : Static
list = 11

abbrev pub message : Static
message = 12
