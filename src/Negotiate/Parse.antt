-- ===== src/Negotiate/Parse.antt =====
-- The parser of src/redhttp/negotiate.c. The floating-point numbers and `strtod` are a parameter.
mod Blank
mod Quality
pub use Blank.*
pub use Quality.*
