-- ===== src/Tests/Redirected.antt =====
-- A hook on a call of five bytes, at 0x4010e8.
use memwrapper.Base.{refl, arith}
use memwrapper.Machine.Returns.{Returns}
use memwrapper.Windows.Simulation.{simulation, simulation-laws}
use memwrapper.Hook.Object.{Memhook, install}
use memwrapper.Hook.Object.Saved.{Installable}
use memwrapper.Hook.Object.Installed.{IsNew}
use memwrapper.Hook.Object.Redirected.{Outcome, install-Redirected}
use memwrapper.Tests.Allocator.{writable_world}
use memwrapper.Tests.Cycle.{new_hook, page}
use memwrapper.Tests.Hook.{small, small-DisassemblerLaws}

abbrev pub on_call : Memhook
on_call = record new_hook { hookee = 0x4010e8; size = 5 }

pub on_call-IsNew : IsNew on_call
on_call-IsNew = record {
  not_installed = refl;
  not_broken = refl;
  executable = refl;
  no_original = refl;
  plain = refl;
}

pub on_call-Installable : Installable simulation 0x500010 page on_call writable_world
on_call-Installable = record {
  enough = omega arith;
  small = omega arith;
  word = omega arith;
  target = record { commit = refl; uniform = λ a h. refl };
  target_read = λ i h. refl;
  behind = refl;
  store = record { commit = refl; uniform = λ a h. refl };
  store_read = λ i h. refl;
  store_write = λ i h. refl;
  apart = omega arith;
  new = record { address = refl; nonzero = λ e. omega arith };
}

install-Redirected_example :
    Returns
      (Outcome simulation simulation-laws small small-DisassemblerLaws 0x500010 page on_call
        writable_world on_call-IsNew on_call-Installable refl)
      (install simulation small 0x500010 on_call writable_world)
install-Redirected_example =
    install-Redirected simulation simulation-laws small small-DisassemblerLaws 0x500010 page on_call
      writable_world on_call-IsNew on_call-Installable refl
