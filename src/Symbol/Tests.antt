-- ===== src/Symbol/Tests.antt =====
-- nih-dbus-tool/symbol.c run on names.
use libnih.Prelude.{ℕ, ◌≡◌, refl, Bool, true, none, some, [], ◌∷◌, ◌++◌}
use libnih.CString.{codes}
use libnih.Strings.{vsprintf, sprintf, strncat, strcat, strcat_vsprintf, strcat_sprintf}
use libnih.Symbol.{
  symbol_from_name, lower_loop, symbol_impl, symbol_typedef, symbol_strcat_title,
  symbol_strcat_interface, dots_loop, title_loop, title_len, extra, start_word,
}
use libnih.Symbol.Gives.{Gives}
use libnih.Symbol.Title.{symbol_typedef-Gives}

abbrev always : ℕ → Bool
always n = true

lower :
    symbol_from_name always 7 (codes "GetURLForName")
    ≡ some (some (codes "get_urlfor_name" ++ 0 ∷ []))
unfolding symbol_from_name extra lower_loop start_word
lower = refl

typedef :
    symbol_typedef always
      (codes "my")
      none
      (some (codes "foo_bar"))
      (codes "reply")
      (some (codes "handler"))
    ≡ some (codes "MyFooBarReplyHandler")
unfolding symbol_typedef symbol_strcat_title vsprintf title_len title_loop
typedef = refl

impl :
    symbol_impl always
      (codes "my")
      (codes "com.acme.Test")
      (some (codes "Poke"))
      (some (codes "method"))
    ≡ some (codes "my_com_acme_Test_Poke_method")
unfolding symbol_impl sprintf vsprintf symbol_strcat_interface dots_loop strcat strncat
    strcat_sprintf strcat_vsprintf
impl = refl

symbol_typedef-Gives_example :
    Gives always
      (symbol_typedef always
        (codes "my")
        (some (codes "foo2bar"))
        none
        (codes "poke_it")
        (some (codes "reply")))
      (codes "MyFoo2barPokeItReply")
symbol_typedef-Gives_example =
    symbol_typedef-Gives always (codes "my") (some (codes "foo2bar")) none (codes "poke_it")
      (some (codes "reply"))
