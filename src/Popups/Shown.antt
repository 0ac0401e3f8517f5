-- ===== src/Popups/Shown.antt =====
-- What a popup shows, and until when.
use package.text.Mathlib.Text.{◌==◌ as str_eq}
use cidemis.Base.{String, ◌≡◌, refl, Bool, true, false, List, [], ◌∷◌, map, All}
use cidemis.Browser.{World, Outside, Element, Post, Body, success, on, set_html, show, hide, ajax}
use cidemis.Service.{ajax_popup}
use cidemis.Popups.{popuppiecejointe, closepopup}

abbrev pub AreShown : Bool → World → Type 0
AreShown b w = All (λ (e : Element). e.shown ≡ b) (w.elements "#popup")

abbrev pub Hold : String → World → Type 0
Hold content w = All (λ (e : Element). e.html ≡ content) (w.elements "#popup .popupcontent")

All-map_of :
    (P : Element → Type 0) (f : Element → Element) (es : List Element)
    → ((e : Element) → P (f e))
    → All P (map f es)
All-map_of P f [] h = tt
All-map_of P f (e ∷ es) h = (h e, All-map_of P f es h)

abbrev request_post : String → Element → Post
request_post url el = record { url = url; params = ("demandenum", el.attrs "demandenum") ∷ [] }

-- When the server answers the question for a request's files with a text that is not empty, the popup
-- is shown with this text, until it is closed, which keeps the text.
pub popuppiecejointe-closepopup :
    (o : Outside) (el : Element) (w : World) (content : String)
    → o.reply (request_post "piece-jointe" el) ≡ success (Body.text content)
    → str_eq content "" ≡ false
    → let w' = popuppiecejointe o el w in
      let w'' = closepopup ("#popup" ∷ []) w' in
      AreShown true w' × Hold content w' × AreShown false w'' × Hold content w''
unfolding popuppiecejointe closepopup ajax_popup ajax on show hide set_html
popuppiecejointe-closepopup o el w content answer full =
    rw (answer, full)
      (
        All-map_of (λ e. e.shown ≡ true) show _ (λ e. refl),
        All-map_of (λ e. e.html ≡ content) (set_html content) _ (λ e. refl),
        All-map_of (λ e. e.shown ≡ false) hide _ (λ e. refl),
        All-map_of (λ e. e.html ≡ content) (set_html content) _ (λ e. refl),
      )
