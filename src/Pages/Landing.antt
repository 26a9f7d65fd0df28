-- ===== src/Pages/Landing.antt =====
-- documentation/components/landing/LandingPage.tsx: the landing page, whose install command is revealed by a lock.
pub mod Features
pub mod Sections
pub mod View
pub mod Revealed
mod Tests
use cloud_weave.Prelude.{String, Bool, true, false, not, [], none}
use cloud_weave.EventLoop.{World, set_timeout, change}
use cloud_weave.EventLoop.Clipboard.{Clipboard, write_text}

-- The hooks of the page, with the clipboard that it writes to.
pub record Landing : Type 0 where
  pub copied : Bool
  pub is_cta_vault_locked : Bool
  pub clipboard : Clipboard String

abbrev pub initial : Landing
initial = record {
  copied = false;
  is_cta_vault_locked = false;
  clipboard = record { content = none; pending = [] };
}

pub data Event : Type 0 where
  copy_install lock toggle_lock : Event

pub data Task : Type 0 where
  uncopy : Task

unfoldable pub run : Task → Landing → Landing
run uncopy s = record s { copied = false }

abbrev pub install_command : String
install_command = "go install github.com/jhanvi857/cloudweave/cmd/cweave@latest"

-- copyInstall
unfoldable pub handle_copy_install : World Landing Task → World Landing Task
handle_copy_install w =
    set_timeout uncopy 2000 (
      change (λ s. record s { copied = true; clipboard = write_text install_command s.clipboard })
        w)

unfoldable pub handle : Event → World Landing Task → World Landing Task
unfolding handle_copy_install
handle copy_install w = handle_copy_install w
handle lock w = change (λ s. record s { is_cta_vault_locked = true }) w
handle toggle_lock w = change (λ s. record s { is_cta_vault_locked = not s.is_cta_vault_locked }) w
