-- ===== src/Guides/Data.antt =====
-- The guides of lib/setup-guides.ts.
use desktopcolors.Common.{List, [], ◌∷◌, none, some, codes, join}
use desktopcolors.Guides.Defs.{SetupGuideEntry, desktop, mobile}

unfoldable pub win11_guide : SetupGuideEntry
win11_guide = record {
  key = codes "win11";
  os = codes "Windows 11";
  note = codes "Settings app";
  swatch = codes "#008080";
  cat = desktop;
  steps =
      codes "Open Settings → Personalization → Background."
      ∷ codes "Set “Personalize your background” to Solid color."
      ∷ codes "Click a swatch, or choose Custom color and paste your hex."
      ∷ [];
  code = none;
  article =
      codes
        "Windows 11 keeps a built-in solid-color mode, so you never need a wallpaper image. The custom-color picker accepts any RGB value — the exact hex from any color on this site."
      ∷ codes
          "The choice is per-account and syncs if you have Windows backup on, so signing into another PC brings your color with you."
      ∷ [];
  shots = some (codes "Background settings" ∷ codes "Custom color picker" ∷ []);
}

unfoldable pub win10_guide : SetupGuideEntry
win10_guide = record {
  key = codes "win10";
  os = codes "Windows 10";
  note = codes "Settings app";
  swatch = codes "#3a6ea5";
  cat = desktop;
  steps =
      codes "Open Settings → Personalization → Background."
      ∷ codes "Under Background, choose Solid color."
      ∷ codes "Pick a swatch or click Custom color for an exact hex."
      ∷ [];
  code = none;
  article =
      codes
        "Windows 10 works almost identically to 11 — the Solid color option lives in the same Background pane, with a Custom color button for precise values."
      ∷ [];
  shots = some (codes "Background pane" ∷ []);
}

unfoldable pub macos_guide : SetupGuideEntry
macos_guide = record {
  key = codes "macos";
  os = codes "macOS";
  note = codes "Ventura and later";
  swatch = codes "#004e98";
  cat = desktop;
  steps =
      codes "Open System Settings → Wallpaper."
      ∷ codes "Scroll to Colors and pick a shade, or click the + for a custom color."
      ∷ codes "Enter your hex in the color picker (RGB / hex tab)."
      ∷ [];
  code = none;
  article =
      codes
        "Recent macOS versions moved wallpaper into System Settings. The Colors group offers presets plus a + tile that opens the standard macOS color picker — use its sliders or the hex field for an exact match."
      ∷ codes
          "On older macOS (System Preferences → Desktop & Screen Saver), choose the “Solid Colors” collection, or click Custom Color at the bottom."
      ∷ [];
  shots = some (codes "Wallpaper → Colors" ∷ codes "Custom color sheet" ∷ []);
}

unfoldable pub gnome_guide : SetupGuideEntry
gnome_guide = record {
  key = codes "gnome";
  os = codes "GNOME · Ubuntu";
  note = codes "solid color via terminal";
  swatch = codes "#4e9a9a";
  cat = desktop;
  steps =
      codes "GNOME hides the solid-color option, so use the terminal."
      ∷ codes "Paste the commands below, swapping in your hex."
      ∷ [];
  code = some (
      join
        (codes "gsettings set org.gnome.desktop.background picture-uri ''"
          ∷ codes "gsettings set org.gnome.desktop.background picture-uri-dark ''"
          ∷ codes "gsettings set org.gnome.desktop.background color-shading-type 'solid'"
          ∷ codes "gsettings set org.gnome.desktop.background primary-color '#008080'"
          ∷ [])
        (codes "\n"));
  article =
      codes
        "Modern GNOME dropped the solid-color control from Settings, but the underlying key still exists. Clearing both picture-uri keys removes any image, and primary-color sets the flat fill."
      ∷ codes
          "For a gradient instead, set color-shading-type to 'vertical' or 'horizontal' and add a secondary-color key."
      ∷ [];
  shots = some (codes "Terminal result" ∷ []);
}

unfoldable pub kde_guide : SetupGuideEntry
kde_guide = record {
  key = codes "kde";
  os = codes "KDE Plasma";
  note = codes "Desktop settings";
  swatch = codes "#5a7ea5";
  cat = desktop;
  steps =
      codes "Right-click the desktop → Configure Desktop and Wallpaper."
      ∷ codes "Set Wallpaper type to Plain Color."
      ∷ codes "Click the color box and enter your hex, then Apply."
      ∷ [];
  code = none;
  article =
      codes
        "Plasma is the most flexible of the Linux desktops here — Plain Color is a first-class wallpaper type, with a full color dialog that takes hex input directly."
      ∷ [];
  shots = some (codes "Wallpaper config" ∷ []);
}

unfoldable pub x11_guide : SetupGuideEntry
x11_guide = record {
  key = codes "x11";
  os = codes "X11";
  note = codes "xsetroot via terminal";
  swatch = codes "#008080";
  cat = desktop;
  steps =
      codes "Open a terminal."
      ∷ codes "Run the command below, replacing the example hex with your color."
      ∷ [];
  code = some (codes "xsetroot -solid '#008080'");
  article =
      codes
        "The xsetroot command sets the X11 root window background directly, making it independent of the window manager you use."
      ∷ [];
  shots = none;
}

unfoldable pub ios_guide : SetupGuideEntry
ios_guide = record {
  key = codes "ios";
  os = codes "iOS · iPhone";
  note = codes "iOS 16 and later";
  swatch = codes "#800080";
  cat = mobile;
  steps =
      codes "Open Settings → Wallpaper → Add New Wallpaper."
      ∷ codes "Tap Color at the top of the gallery."
      ∷ codes "Choose a hue, tap the swatch to fine-tune, then Set."
      ∷ [];
  code = none;
  article =
      codes
        "Since iOS 16 the wallpaper gallery includes a Color option that produces a flat background — no need to save an image. Tapping the large swatch opens a picker where you can dial in an exact color."
      ∷ codes "You can set it for the Lock Screen, Home Screen, or both from the same flow."
      ∷ [];
  shots = some (codes "Add wallpaper → Color" ∷ codes "Color picker" ∷ []);
}

unfoldable pub android_guide : SetupGuideEntry
android_guide = record {
  key = codes "android";
  os = codes "Android";
  note = codes "varies by skin";
  swatch = codes "#808000";
  cat = mobile;
  steps =
      codes "Save a solid-color image (download any hex as a PNG here)."
      ∷ codes "Long-press the home screen → Wallpaper & style."
      ∷ codes "Pick the saved image from Gallery / Photos and apply."
      ∷ [];
  code = none;
  article =
      codes
        "Stock Android has no built-in solid-color wallpaper, so the reliable route is a solid-color image — download one at your target resolution and set it like any photo."
      ∷ codes
          "Some skins add a shortcut: Samsung One UI has a “Color palette” wallpaper, and several launchers expose a solid-color option directly."
      ∷ [];
  shots = some (codes "Wallpaper & style" ∷ []);
}

unfoldable pub setup_guides : List SetupGuideEntry
unfolding win11_guide win10_guide macos_guide gnome_guide kde_guide x11_guide ios_guide
    android_guide
setup_guides =
    win11_guide ∷ win10_guide ∷ macos_guide ∷ gnome_guide ∷ kde_guide ∷ x11_guide ∷ ios_guide
    ∷ android_guide ∷ []
