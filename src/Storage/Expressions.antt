-- ===== src/Storage/Expressions.antt =====
-- storage/el_to_sql_compiler.py and expression_languages/generic_el_transformer.py: the language of the
-- custom filters. The parser is lark's, from the grammar to the tree.
mod Syntax
mod Evaluator
mod Compiler
pub mod Meaning
pub mod Placeholders
unfoldable pub use Syntax.*
unfoldable pub use Evaluator.*
unfoldable pub use Compiler.*
