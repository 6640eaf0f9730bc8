-- ===== src/CString.antt =====
-- common/string.c, common/strings.c and common/ctype.h: the string functions that kernel and
-- userland share. A list is the memory from the pointer on; behind its end lies a NUL.
mod Defs
mod Tokens
mod Copy
pub mod Compare
pub mod Tokenize
pub mod Bounded
mod Tests
pub use Defs.{c_str, Cmp, below, same, above, char_at, rest_of, is_space, char_lt}
unfoldable pub use Defs.{strlen, strnlen, strcmp, strncmp, strchr, strrchr, strstr, memcmp}
unfoldable pub use Defs.{tolower, strcasecmp}
unfoldable pub use Copy.{strcpy, strncpy, strlcpy, strcat, strncat}
unfoldable pub use Tokens.{strtok_r, tokens, is_separator}
